-- ===== src/Download/Safety.antt =====
-- The invariant of the manager over every order of operations, pauses and worker runs.
use mathlib.Core.Option.{some-injective}
use mathlib.Core.Path.{subst}
use distri_store.Prelude.{ℕ, Bytes, Bool, Option, [], ◌∷◌, Str, str_eq, inl, inr, Bool-cases}
use distri_store.Prelude.Dict
use distri_store.Prelude.Dict.{Dict, AllValues, put-AllValues, remove-AllValues}
use distri_store.Manifest.{FileManifest}
use distri_store.Download.{DownloadState, ResumeDict}
use distri_store.Download.Worker.{Fetched, Merged}
use distri_store.Download.Partition.{StateOk, FileOk}
use distri_store.Download.Steps.{
  ManagerOk, AllFiles, start_with-ManagerOk, find_state-StateOk, pause-ManagerOk, resume-ManagerOk,
  clear_keys-ManagerOk, run_worker-ManagerOk, recover_from-AllValues,
}
use distri_store.Download.Manager.{
  Manager, init, find_state, start_download, pause_download, resume_download, finished_keys,
  clear_completed, run_worker,
}

-- What can happen to a manager: its operations, and a worker that changes the state it shares.
-- During the wait of a pause the worker makes its last changes, and other calls may go on.
pub data Step : Manager → Manager → Type 0 where
  start :
      (now : ℕ) (k : Str) (manifest : FileManifest) (password : Str) (m : Manager)
      → Step m (start_download now k manifest password m).0
  pause :
      (now : ℕ) (k : Str) (wind_down : DownloadState → DownloadState)
      (meanwhile : Manager → Manager) (m : Manager)
      → ((s : DownloadState) → StateOk s → StateOk (wind_down s))
      → ((m : Manager) → ManagerOk m → ManagerOk (meanwhile m))
      → Step m (pause_download now k wind_down meanwhile m).0
  resume :
      (k : Str) (has_manifest : Bool) (password : Str) (m : Manager)
      → Step m (resume_download k has_manifest password m).0
  clear : (m : Manager) → Step m (clear_completed m)
  work :
      (now : ℕ) (pause_set : ℕ → Bool) (load_chunk_fn : Str → Fetched) (manifest : FileManifest)
      (merge : Dict Bytes → Merged) (store : Dict Bytes) (k : Str) (m : Manager)
      → Step m (run_worker now pause_set load_chunk_fn manifest merge store k m)

pub data Reach (m : Manager) : Manager → Type 0 where
  here : Reach m m
  next : {n o : Manager} → Reach m n → Step n o → Reach m o

Step-ManagerOk : {m n : Manager} → Step m n → ManagerOk m → ManagerOk n
unfolding start_download resume_download pause_download
Step-ManagerOk (start now k manifest password m) ok =
    start_with-ManagerOk now k manifest password (find_state m k) m
      (λ s e. find_state-StateOk m k s ok e) ok
Step-ManagerOk (pause now k wind_down meanwhile m keeps others) ok =
    pause-ManagerOk now k wind_down meanwhile m keeps others ok
Step-ManagerOk (resume k has_manifest password m) ok = resume-ManagerOk k has_manifest password m ok
Step-ManagerOk (clear m) ok =
    unfold clear_completed in clear_keys-ManagerOk (finished_keys m.downloads) m ok
Step-ManagerOk (work now pause_set load_chunk_fn manifest merge store k m) ok =
    run_worker-ManagerOk now pause_set load_chunk_fn manifest merge store k m ok

AllValues_of_AllFiles : (files : Dict (Option ResumeDict)) → AllFiles files → AllValues FileOk files
unfolding Dict.get
AllValues_of_AllFiles [] h k f e = absurd (cc)
AllValues_of_AllFiles ((name, g) ∷ files) h k f e = elim (Bool-cases (str_eq name k)) [
  | inl same ↦ subst FileOk (some-injective _ _ (rw same at e)) h.0
  | inr other ↦ AllValues_of_AllFiles files h.1 k f (rw other at e)
]

-- A manager that starts on a folder whose readable `.resume` files split their chunks, and
-- does any operations, pauses and worker runs in any order, tracks only downloads whose
-- missing and completed chunks split the chunks of the file, and so do its `.resume` files.
pub Reach-ManagerOk :
    (files : Dict (Option ResumeDict)) {m : Manager}
    → AllFiles files
    → Reach (init files) m
    → ManagerOk m
unfolding init Dict.get
Reach-ManagerOk files h here = record {
  tracked = recover_from-AllValues files [] h (λ k v e. absurd (cc));
  files = AllValues_of_AllFiles files h;
}
Reach-ManagerOk files h (next r st) = Step-ManagerOk st (Reach-ManagerOk files h r)
