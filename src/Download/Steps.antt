-- ===== src/Download/Steps.antt =====
-- The invariant of the manager, that every tracked download and every `.resume` file splits
-- the chunks of its file, operation by operation.
use mathlib.Core.Option.{some-injective}
use mathlib.Core.Path.{subst}
use distri_store.Prelude.{
  ℕ, Bytes, ◌≡◌, refl, ◌∙◌, Bool, Option, none, some, List, [], ◌∷◌, length, Str, inl, inr,
  Bool-cases, Option-cases,
}
use distri_store.Prelude.Dict
use distri_store.Prelude.Dict.{Dict, AllValues, put-AllValues, remove-AllValues}
use distri_store.Manifest.{FileManifest, is_empty}
use distri_store.Download.{
  DownloadState, ResumeDict, to_resume_dict, from_resume_dict, is_downloading,
}
use distri_store.Download.Worker.{Worker, Fetched, Merged}
use distri_store.Download.Partition.{StateOk, FileOk, fresh-IsSplit, download_worker-WorkerOk}
use distri_store.Download.Manager.{
  Manager, load_resume, parse_resume, recover_from, find_state, fresh_state, resumed, launch, track,
  start_with, signal_pause, settle_pause, pause_download, resume_download, clear_keys, write_file,
  settle_worker, readable, run_worker,
}

-- Every file of a folder splits the chunks of its download.
abbrev pub AllFiles : Dict (Option ResumeDict) → Type 0
AllFiles [] = Unit
AllFiles ((name, f) ∷ files) = FileOk f × AllFiles files

pub record ManagerOk (m : Manager) : Type 0 where
  pub tracked : AllValues StateOk m.downloads
  pub files : AllValues FileOk m.resume_files

parse_resume-StateOk :
    (f : Option ResumeDict) (s : DownloadState) → FileOk f → parse_resume f ≡ some s → StateOk s
unfolding parse_resume from_resume_dict
parse_resume-StateOk none s h e = absurd (cc)
parse_resume-StateOk (some d) s h e = subst StateOk (some-injective _ _ e) h

pub find_state-StateOk :
    (m : Manager) (k : Str) (s : DownloadState) → ManagerOk m → find_state m k ≡ some s → StateOk s
unfolding find_state load_resume
find_state-StateOk m k s ok e = elim (Option-cases (Dict.get m.downloads k)) [
  | inr (t, found) ↦ ok.tracked k s (found ∙ (rw (found, find_state) at e))
  | inl absent ↦ elim (Option-cases (Dict.get m.resume_files k)) [
    | inl no_file ↦ absurd (cc (rw (absent, no_file, find_state, load_resume) at e))
    | inr (f, file) ↦
        parse_resume-StateOk f s (ok.files k f file)
          (rw (absent, file, find_state, load_resume) at e)
  ]
]

track-ManagerOk :
    (now : ℕ) (k : Str) (s : DownloadState) (m : Manager)
    → StateOk s
    → ManagerOk m
    → ManagerOk (track now k s m).0
unfolding track launch to_resume_dict
track-ManagerOk now k s m h ok = record {
  tracked = put-AllValues StateOk m.downloads k _ h ok.tracked;
  files = put-AllValues FileOk m.resume_files s.file_hash _ h ok.files;
}

pub start_with-ManagerOk :
    (now : ℕ) (k : Str) (manifest : FileManifest) (password : Str) (o : Option DownloadState)
    (m : Manager)
    → ((s : DownloadState) → o ≡ some s → StateOk s)
    → ManagerOk m
    → ManagerOk (start_with now k manifest password o m).0
unfolding start_with resumed fresh_state
start_with-ManagerOk now k manifest password none m h ok =
    track-ManagerOk now k (fresh_state now k manifest password) m
      (fresh-IsSplit (length manifest.chunks)) ok
start_with-ManagerOk now k manifest password (some s) m h ok =
    elim (Bool-cases (is_downloading s.status)) [
      | inl active ↦ rw active ok
      | inr idle ↦ elim (Bool-cases (is_empty s.missing_chunks)) [
        | inl over ↦
            rw (idle, over)
              (track-ManagerOk now k (fresh_state now k manifest password) m
                (fresh-IsSplit (length manifest.chunks)) ok)
        | inr left ↦ rw (idle, left) (track-ManagerOk now k (resumed password s) m (h s refl) ok)
      ]
    ]

settle_pause-ManagerOk :
    (now : ℕ) (k : Str) (s : DownloadState) (m : Manager)
    → StateOk s
    → ManagerOk m
    → ManagerOk (settle_pause now k s m).0
unfolding settle_pause to_resume_dict
settle_pause-ManagerOk now k s m h ok =
    let files = put-AllValues FileOk m.resume_files s.file_hash _ h ok.files in
    elim (Option-cases (Dict.get m.downloads k)) [
      | inl cleared ↦ rw (settle_pause, cleared) (record { tracked = ok.tracked; files = files })
      | inr (t, found) ↦
          rw (settle_pause, found)
            (record { tracked = put-AllValues StateOk m.downloads k _ h ok.tracked; files = files })
    ]

signal_pause-ManagerOk : (k : Str) (m : Manager) → ManagerOk m → ManagerOk (signal_pause k m)
unfolding signal_pause
signal_pause-ManagerOk k m ok = elim (Option-cases (Dict.get m.cancel_events k)) [
  | inl absent ↦ rw (absent, signal_pause) ok
  | inr (e, found) ↦ rw (found, signal_pause) (record { tracked = ok.tracked; files = ok.files })
]

pub clear_keys-ManagerOk : (ks : List Str) (m : Manager) → ManagerOk m → ManagerOk (clear_keys ks m)
unfolding clear_keys
clear_keys-ManagerOk [] m ok = ok
clear_keys-ManagerOk (k ∷ ks) m ok =
    clear_keys-ManagerOk ks _
      (record { tracked = remove-AllValues StateOk m.downloads k ok.tracked; files = ok.files })

pub recover_from-AllValues :
    (files : Dict (Option ResumeDict)) (t : Dict DownloadState)
    → AllFiles files
    → AllValues StateOk t
    → AllValues StateOk (recover_from files t)
unfolding recover_from from_resume_dict
recover_from-AllValues [] t h k = k
recover_from-AllValues ((name, none) ∷ files) t h k = recover_from-AllValues files t h.1 k
recover_from-AllValues ((name, some d) ∷ files) t h k =
    recover_from-AllValues files _ h.1 (put-AllValues StateOk t d.file_hash _ h.0 k)

pub pause-ManagerOk :
    (now : ℕ) (k : Str) (wind_down : DownloadState → DownloadState) (meanwhile : Manager → Manager)
    (m : Manager)
    → ((s : DownloadState) → StateOk s → StateOk (wind_down s))
    → ((m : Manager) → ManagerOk m → ManagerOk (meanwhile m))
    → ManagerOk m
    → ManagerOk (pause_download now k wind_down meanwhile m).0
unfolding pause_download
pause-ManagerOk now k wind_down meanwhile m keeps others ok =
    elim (Option-cases (Dict.get m.downloads k)) [
      | inl absent ↦ rw (absent, pause_download) ok
      | inr (s, found) ↦ elim (Bool-cases (is_downloading s.status)) [
        | inr idle ↦ rw (found, idle, pause_download) ok
        | inl active ↦
            rw (found, active, pause_download)
              (settle_pause-ManagerOk now k (wind_down s) (meanwhile (signal_pause k m))
                (keeps s (ok.tracked k s found)) (others _ (signal_pause-ManagerOk k m ok)))
      ]
    ]

pub resume-ManagerOk :
    (k : Str) (has_manifest : Bool) (password : Str) (m : Manager)
    → ManagerOk m
    → ManagerOk (resume_download k has_manifest password m).0
unfolding resume_download launch resumed
resume-ManagerOk k has_manifest password m ok = elim (Option-cases (find_state m k)) [
  | inl absent ↦ rw (absent, resume_download) ok
  | inr (s, found) ↦ elim (Bool-cases (is_downloading s.status)) [
    | inl active ↦ rw (found, active, resume_download) ok
    | inr idle ↦ elim (Bool-cases has_manifest) [
      | inr gone ↦ rw (found, idle, gone, resume_download) ok
      | inl there ↦
          rw (found, idle, there, resume_download)
            (record {
              tracked =
                  put-AllValues StateOk m.downloads k (resumed password s)
                    (find_state-StateOk m k s ok found) ok.tracked;
              files = ok.files;
            })
    ]
  ]
]

write_file-ManagerOk :
    (k : Str) (f : Option ResumeDict) (m : Manager)
    → FileOk f
    → ManagerOk m
    → ManagerOk (write_file k f m)
unfolding write_file
write_file-ManagerOk k none m h ok = record {
  tracked = ok.tracked;
  files = remove-AllValues FileOk m.resume_files k ok.files;
}
write_file-ManagerOk k (some d) m h ok = record {
  tracked = ok.tracked;
  files = put-AllValues FileOk m.resume_files k (some d) h ok.files;
}

readable-FileOk :
    (m : Manager) (k : Str) → ManagerOk m → FileOk (readable (Dict.get m.resume_files k))
readable-FileOk m k ok = elim (Option-cases (Dict.get m.resume_files k)) [
  | inl absent ↦ rw absent tt
  | inr (f, found) ↦ rw found (ok.files k f found)
]

pub run_worker-ManagerOk :
    (now : ℕ) (pause_set : ℕ → Bool) (load_chunk_fn : Str → Fetched) (manifest : FileManifest)
    (merge : Dict Bytes → Merged) (store : Dict Bytes) (k : Str) (m : Manager)
    → ManagerOk m
    → ManagerOk (run_worker now pause_set load_chunk_fn manifest merge store k m)
unfolding run_worker settle_worker
run_worker-ManagerOk now pause_set load_chunk_fn manifest merge store k m ok =
    elim (Option-cases (Dict.get m.downloads k)) [
      | inl absent ↦ rw (absent, run_worker) ok
      | inr (s, found) ↦
          let w : Worker = record {
            state = s;
            resume_file = readable (Dict.get m.resume_files k);
            store = store;
            chunks_since_flush = 0;
          } in
          let done =
            download_worker-WorkerOk now pause_set load_chunk_fn s.total_chunks manifest merge w
              (record {
                total_kept = refl;
                state = ok.tracked k s found;
                resume_file = readable-FileOk m k ok;
              }) in
          rw (found, run_worker)
            (write_file-ManagerOk k _ _ done.resume_file (record {
              tracked = put-AllValues StateOk m.downloads k _ done.state ok.tracked;
              files = ok.files;
            }))
    ]
