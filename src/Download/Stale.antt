-- ===== src/Download/Stale.antt =====
-- A failed download: what the worker leaves, and how `clear_completed` makes it one that no
-- operation starts again.
use distri_store.Prelude.{
  ℕ, ◌≡◌, refl, ap, ◌⊎◌, ◌∙◌, Bool, true, false, ◌||◌, none, some, List, [], ◌∷◌, Str, Bytes,
  str_eq, inl, inr, Bool-cases, arith,
}
use distri_store.Prelude.Dict
use distri_store.Prelude.Dict.{Dict, get-put, get-remove, get-put_self, get-remove_self}
use distri_store.Manifest.{ChunkInfo, FileManifest}
use distri_store.Download.{
  downloading, error, DownloadState, ResumeDict, to_resume_dict, from_resume_dict, is_downloading,
  is_finished, mark_completed,
}
use distri_store.Prelude.Count.{elem}
use distri_store.Prelude.Sort.{sort_by}
use distri_store.Download.Worker.{
  Worker, Fetched, arrived, failed, interrupted, Merged, LoopEnd, all_visited, fetch_failed,
  save_resume, set_error, flush_due, take_chunk, after_fetch, chunk_loop, by_index, finish,
  download_worker,
}
use distri_store.Download.Manager.{
  Manager, load_resume, parse_resume, find_state, start_with, start_download, resume_download,
  finished_keys, clear_keys, clear_completed,
}

-- `k in l`
abbrev has : Str → List Str → Bool
has k [] = false
has k (j ∷ l) = str_eq j k || has k l

has-finished_keys :
    (d : Dict DownloadState) (k : Str) {s : DownloadState}
    → Dict.get d k ≡ some s
    → is_finished s.status ≡ true
    → has k (finished_keys d) ≡ true
unfolding finished_keys Dict.get
has-finished_keys [] k e f = absurd (cc)
has-finished_keys ((j, t) ∷ d) k {s} e f = elim (Bool-cases (str_eq j k)) [
  | inr other ↦ ground (arith, has-finished_keys d k {s = s} (rw other at e) f)
  | inl same ↦ let alike : t ≡ s = ground arith in rw (alike, f) (rw same)
]

-- What a cleared key loses, and what stays.
clear_keys_lem :
    (ks : List Str) (m : Manager) (k : Str)
    → ((Dict.get m.downloads k ≡ none) ⊎ (has k ks ≡ true)
        → Dict.get (clear_keys ks m).downloads k ≡ none)
      × ((Dict.get m.tasks k ≡ none) ⊎ (has k ks ≡ true)
          → Dict.get (clear_keys ks m).tasks k ≡ none)
      × ((clear_keys ks m).resume_files ≡ m.resume_files)
unfolding clear_keys
clear_keys_lem [] m k = (λ h. ground arith, λ h. ground arith, refl)
clear_keys_lem (j ∷ ks) m k =
    let cleared : Manager = record m {
      downloads = Dict.remove m.downloads j;
      tasks = Dict.remove m.tasks j;
      cancel_events = Dict.remove m.cancel_events j;
    } in
    let rest = clear_keys_lem ks cleared k in
    (
      λ h. rest.0 (ground (arith, get-remove m.downloads j k)),
      λ h. rest.1 (ground (arith, get-remove m.tasks j k)),
      rest.2,
    )

-- What a manager does with a download that only a stale file tells of.
stale_file :
    (now : ℕ) (k : Str) (manifest : FileManifest) (has_manifest : Bool) (password : Str)
    (m : Manager) {d : ResumeDict}
    → Dict.get m.downloads k ≡ none
    → Dict.get m.resume_files k ≡ some (some d)
    → d.status ≡ some downloading
    → ((start_download now k manifest password m).0 ≡ m)
      × ((resume_download k has_manifest password m).0 ≡ m)
unfolding start_download resume_download find_state load_resume parse_resume start_with
    is_downloading from_resume_dict
stale_file now k manifest has_manifest password m {d} absent file stale =
    (ground arith, ground arith)

-- A failed download whose `.resume` file still says that it is downloading, as the worker
-- leaves it when a fetch fails, is forgotten by `clear_completed`. From then on neither
-- `start_download` nor `resume_download` does anything: no task is launched.
pub cleared_failure_never_restarts :
    (now : ℕ) (k : Str) (manifest : FileManifest) (has_manifest : Bool) (password : Str)
    (m : Manager) {s : DownloadState} {d : ResumeDict}
    → Dict.get m.downloads k ≡ some s
    → s.status ≡ error
    → Dict.get m.resume_files k ≡ some (some d)
    → d.status ≡ some downloading
    → ((start_download now k manifest password (clear_completed m)).0 ≡ clear_completed m)
      × ((resume_download k has_manifest password (clear_completed m)).0 ≡ clear_completed m)
      × (Dict.get (clear_completed m).tasks k ≡ none)
unfolding clear_completed is_finished
cleared_failure_never_restarts now k manifest has_manifest password m {s} {d} found erred file
      stale =
    let over : is_finished s.status ≡ true = simp erred in
    let (gone, no_task, files) = clear_keys_lem (finished_keys m.downloads) m k in
    let listed = has-finished_keys m.downloads k found over in
    let (started, resumed) =
      stale_file now k manifest has_manifest password (clear_completed m) {d = d}
        (gone (inr listed)) (rw files file) stale in
    (started, resumed, no_task (inr listed))

-- An error in memory that the `.resume` file does not know of.
pub record IsStale (w : Worker) : Type 0 where
  pub erred : w.state.status ≡ error
  pub saved : ResumeDict
  pub file : w.resume_file ≡ some saved
  pub unaware : saved.status ≡ some downloading

status-take_chunk :
    (now : ℕ) (info : ChunkInfo) (b : Bytes) (w : Worker)
    → (take_chunk now info b w).state.status ≡ w.state.status
unfolding take_chunk flush_due mark_completed
status-take_chunk now info b w = ground arith

after_fetch_failed :
    (now : ℕ) (w : Worker)
    → w.state.status ≡ downloading
    → (go : Bytes → LoopEnd × Worker) → ((b : Bytes) → (go b).0 ≡ fetch_failed → IsStale (go b).1)
    → (f : Fetched) → (after_fetch now w go f).0 ≡ fetch_failed
    → IsStale (after_fetch now w go f).1
unfolding after_fetch save_resume set_error to_resume_dict
after_fetch_failed now w st go rest (arrived b) e = rest b e
after_fetch_failed now w st go rest (failed message) e = record {
  erred = refl;
  saved = to_resume_dict (record w.state { updated_at = now });
  file = refl;
  unaware = ap some st;
}
after_fetch_failed now w st go rest interrupted e = absurd (cc)

finish_failed :
    (now : ℕ) (merge : Dict Bytes → Merged) (end : LoopEnd) (w : Worker)
    → end ≡ fetch_failed
    → IsStale w
    → IsStale (finish now merge (end, w))
finish_failed now merge all_visited w e h = absurd (cc)
finish_failed now merge _ w e h = h

loop_failed :
    (now : ℕ) (pause_set : ℕ → Bool) (load_chunk_fn : Str → Fetched) (wanted : List ℕ)
    (l : List ChunkInfo) (w : Worker)
    → w.state.status ≡ downloading
    → (chunk_loop now pause_set load_chunk_fn wanted l w).0 ≡ fetch_failed
    → IsStale (chunk_loop now pause_set load_chunk_fn wanted l w).1
unfolding chunk_loop
loop_failed now pause_set load_chunk_fn wanted [] w st e = absurd (cc)
loop_failed now pause_set load_chunk_fn wanted (info ∷ rest) w st e =
    elim (Bool-cases (elem info.index wanted)) [
      | inr skip ↦ rw skip (loop_failed now pause_set load_chunk_fn wanted rest w st (rw skip at e))
      | inl here ↦ elim (Bool-cases (pause_set info.index)) [
        | inl stop ↦ absurd (cc (rw (here, stop) at e))
        | inr on ↦
            rw (here, on)
              (after_fetch_failed now w st _
                (λ b.
                  loop_failed now pause_set load_chunk_fn wanted rest _
                    (status-take_chunk now info b w ∙ st))
                (load_chunk_fn info.chunk_hash) (rw (here, on) at e))
      ]
    ]

-- When a fetch fails, the worker ends with the status error in memory and leaves a `.resume`
-- file that still says that the download is running.
pub download_worker_fetch_failed :
    (now : ℕ) (pause_set : ℕ → Bool) (load_chunk_fn : Str → Fetched) (manifest : FileManifest)
    (merge : Dict Bytes → Merged) (w : Worker)
    → w.state.status ≡ downloading
    → (chunk_loop now pause_set load_chunk_fn w.state.missing_chunks
        (sort_by by_index manifest.chunks)
        w).0
      ≡ fetch_failed
    → IsStale (download_worker now pause_set load_chunk_fn manifest merge w)
unfolding download_worker
download_worker_fetch_failed now pause_set load_chunk_fn manifest merge w st e =
    finish_failed now merge _ _ e (loop_failed now pause_set load_chunk_fn _ _ w st e)
