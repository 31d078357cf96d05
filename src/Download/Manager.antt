-- ===== src/Download/Manager.antt =====
-- `DownloadManager`: the tracked downloads, their tasks and pause events, and the `.resume`
-- files. A file that does not parse is `none`.
use distri_store.Prelude.{
  ℕ, Bytes, Bool, true, false, not, Option, none, some, List, [], ◌∷◌, Str, length, if◌then◌else◌,
}
use distri_store.Download.Worker.{Worker, Fetched, Merged, download_worker}
use distri_store.Prelude.Count.{range_from}
use distri_store.Prelude.Dict
use distri_store.Prelude.Dict.{Dict}
use distri_store.Manifest.{FileManifest, is_empty}
use distri_store.Download.{
  downloading, paused, DownloadState, ResumeDict, to_resume_dict, from_resume_dict, is_downloading,
  is_finished,
}

-- A task is recorded by whether it is done, an event by whether it is set.
pub record Manager : Type 0 where
  pub downloads : Dict DownloadState
  pub tasks : Dict Bool
  pub cancel_events : Dict Bool
  pub resume_files : Dict (Option ResumeDict)

-- `_save_resume`: the stamped state is the tracked one, which the manager shares.
unfoldable pub save_state : ℕ → DownloadState → Manager → Manager
save_state now s m =
    let stamped = record s { updated_at = now } in
    record m {
      downloads = Dict.put m.downloads s.file_hash stamped;
      resume_files = Dict.put m.resume_files s.file_hash (some (to_resume_dict stamped));
    }

unfoldable pub parse_resume : Option ResumeDict → Option DownloadState
parse_resume none = none
parse_resume (some d) = some (from_resume_dict d)

unfoldable pub load_resume : Manager → Str → Option DownloadState
unfolding parse_resume
load_resume m file_hash = elim (Dict.get m.resume_files file_hash) [
  | none ↦ none
  | some f ↦ parse_resume f
]

unfoldable pub delete_resume : Manager → Str → Manager
delete_resume m file_hash = record m { resume_files = Dict.remove m.resume_files file_hash }

-- The loop of `_recover_resume_files`.
unfoldable pub recover_from :
    List (Str × Option ResumeDict) → Dict DownloadState → Dict DownloadState
recover_from [] tracked = tracked
recover_from ((name, none) ∷ files) tracked = recover_from files tracked
recover_from ((name, some d) ∷ files) tracked =
    recover_from files
      (Dict.put tracked d.file_hash (record (from_resume_dict d) { status = paused }))

-- `__init__` over the files of the storage folder.
unfoldable pub init : Dict (Option ResumeDict) → Manager
unfolding recover_from
init files = record {
  downloads = recover_from files [];
  tasks = [];
  cancel_events = [];
  resume_files = files;
}

-- `self._downloads.get(h) or self._load_resume(h)`
unfoldable pub find_state : Manager → Str → Option DownloadState
unfolding load_resume
find_state m file_hash = elim (Dict.get m.downloads file_hash) [
  | some s ↦ some s
  | none ↦ load_resume m file_hash
]

unfoldable pub fresh_state : ℕ → Str → FileManifest → Str → DownloadState
fresh_state now file_hash manifest password = record {
  file_hash = file_hash;
  filename = manifest.original_filename;
  total_chunks = length manifest.chunks;
  total_size = manifest.original_size;
  missing_chunks = range_from 0 (length manifest.chunks);
  completed_chunks = [];
  started_at = now;
  updated_at = 0;
  status = downloading;
  error_message = [];
  password = password;
}

-- A new pause event and a new task for the worker.
unfoldable pub launch : Str → Manager → Manager
launch file_hash m = record m {
  cancel_events = Dict.put m.cancel_events file_hash false;
  tasks = Dict.put m.tasks file_hash false;
}

-- `self._downloads[h] = state; self._save_resume(state)`, then the launch. The file is named
-- after the state.
unfoldable pub track : ℕ → Str → DownloadState → Manager → Manager × DownloadState
unfolding launch
track now file_hash s m =
    let stamped = record s { updated_at = now } in
    (
      launch file_hash (record m {
        downloads = Dict.put m.downloads file_hash stamped;
        resume_files = Dict.put m.resume_files s.file_hash (some (to_resume_dict stamped));
      }),
      stamped,
    )

unfoldable pub resumed : Str → DownloadState → DownloadState
resumed password s = record s { status = downloading; password = password }

unfoldable pub start_with :
    ℕ → Str → FileManifest → Str → Option DownloadState → Manager → Manager × DownloadState
unfolding track fresh_state resumed
start_with now file_hash manifest password none m =
    track now file_hash (fresh_state now file_hash manifest password) m
start_with now file_hash manifest password (some existing) m =
    if is_downloading existing.status
    then (m, existing)
    else if not (is_empty existing.missing_chunks)
    then track now file_hash (resumed password existing) m
    else track now file_hash (fresh_state now file_hash manifest password) m

unfoldable pub start_download : ℕ → Str → FileManifest → Str → Manager → Manager × DownloadState
unfolding start_with find_state
start_download now file_hash manifest password m =
    start_with now file_hash manifest password (find_state m file_hash) m

-- `pause_download` up to its wait: the pause signal.
unfoldable pub signal_pause : Str → Manager → Manager
signal_pause file_hash m = elim (Dict.get m.cancel_events file_hash) [
  | none ↦ m
  | some e ↦ record m { cancel_events = Dict.put m.cancel_events file_hash true }
]

-- What follows the wait, on the state object that was read before it: `s` is what the worker
-- has made of that object by then. The object is in the table if it has not been cleared.
unfoldable pub settle_pause : ℕ → Str → DownloadState → Manager → Manager × Option DownloadState
settle_pause now file_hash s m =
    let stamped = record s { status = paused; updated_at = now } in
    (
      record m {
        downloads = elim (Dict.get m.downloads file_hash) [
          | none ↦ m.downloads
          | some tracked ↦ Dict.put m.downloads file_hash stamped
        ];
        resume_files = Dict.put m.resume_files s.file_hash (some (to_resume_dict stamped));
        tasks = Dict.remove m.tasks file_hash;
        cancel_events = Dict.remove m.cancel_events file_hash;
      },
      some stamped,
    )

-- `wind_down` is what the worker does to its state during the wait, and `meanwhile` what other
-- calls do to the manager.
unfoldable pub pause_download :
    ℕ
    → Str
    → (DownloadState → DownloadState)
    → (Manager → Manager)
    → Manager
    → Manager × Option DownloadState
unfolding signal_pause settle_pause
pause_download now file_hash wind_down meanwhile m = elim (Dict.get m.downloads file_hash) [
  | none ↦ (m, none)
  | some s ↦
      if not (is_downloading s.status)
      then (m, some s)
      else settle_pause now file_hash (wind_down s) (meanwhile (signal_pause file_hash m))
]

-- `has_manifest` says whether the local store has the manifest of the file.
unfoldable pub resume_download : Str → Bool → Str → Manager → Manager × Option DownloadState
unfolding find_state launch resumed
resume_download file_hash has_manifest password m = elim (find_state m file_hash) [
  | none ↦ (m, none)
  | some s ↦
      if is_downloading s.status then (m, some s) else if not has_manifest then (m, none) else (
        launch file_hash
            (record m { downloads = Dict.put m.downloads file_hash (resumed password s) }),
        some (resumed password s),
      )
]

unfoldable pub get_download : Manager → Str → Option DownloadState
get_download m file_hash = Dict.get m.downloads file_hash

-- The keys that `clear_completed` collects first.
unfoldable pub finished_keys : Dict DownloadState → List Str
finished_keys [] = []
finished_keys ((k, s) ∷ d) =
    let rest = finished_keys d in if is_finished s.status then k ∷ rest else rest

unfoldable pub clear_keys : List Str → Manager → Manager
clear_keys [] m = m
clear_keys (k ∷ ks) m = clear_keys ks (record m {
  downloads = Dict.remove m.downloads k;
  tasks = Dict.remove m.tasks k;
  cancel_events = Dict.remove m.cancel_events k;
})

unfoldable pub clear_completed : Manager → Manager
unfolding finished_keys clear_keys
clear_completed m = clear_keys (finished_keys m.downloads) m

-- The `.resume` file that a worker leaves; `none` is a deleted file.
unfoldable pub write_file : Str → Option ResumeDict → Manager → Manager
write_file k none m = record m { resume_files = Dict.remove m.resume_files k }
write_file k (some d) m = record m { resume_files = Dict.put m.resume_files k (some d) }

unfoldable pub settle_worker : Str → Worker → Manager → Manager
unfolding write_file
settle_worker k w m =
    write_file k w.resume_file (record m { downloads = Dict.put m.downloads k w.state })

-- The file as a worker sees it: one that does not parse is as good as none.
abbrev pub readable : Option (Option ResumeDict) → Option ResumeDict
readable none = none
readable (some f) = f

-- A run of the worker's task on the state that the manager tracks, from a store of chunks.
unfoldable pub run_worker :
    ℕ
    → (ℕ → Bool)
    → (Str → Fetched)
    → FileManifest
    → (Dict Bytes → Merged)
    → Dict Bytes
    → Str
    → Manager
    → Manager
unfolding settle_worker
run_worker now pause_set load_chunk_fn manifest merge store k m = elim (Dict.get m.downloads k) [
  | none ↦ m
  | some s ↦
      settle_worker k
        (download_worker now pause_set load_chunk_fn manifest merge (record {
          state = s;
          resume_file = readable (Dict.get m.resume_files k);
          store = store;
          chunks_since_flush = 0;
        }))
        m
]
