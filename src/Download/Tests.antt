-- ===== src/Download/Tests.antt =====
-- A download of two chunks.
use mathlib.Core.List.{Mem, not-mem-nil, eq-or-mem_of_mem-cons}
use mathlib.Core.Bool.{Bool-set, true≢false}
use mathlib.Core.Logic.Or
use distri_store.Prelude.{
  ℕ, ◌≡◌, refl, true, false, Bool, Option, none, some, [], ◌∷◌, Str, Bytes, codes, arith, str_eq,
}
use distri_store.Prelude.Count.{elem, range_from}
use distri_store.Prelude.Dict
use distri_store.Prelude.Dict.{Dict, IsDistinct}
use distri_store.Manifest.{ChunkInfo, FileManifest}
use distri_store.Download.{
  downloading, paused, error, DownloadState, ResumeDict, to_resume_dict, from_resume_dict,
}
use distri_store.Download.Worker.{
  Worker, Fetched, arrived, failed, Merged, merged, has_chunk, chunk_loop, download_worker,
}
use distri_store.Download.Manager.{Manager, init, start_download, resume_download, clear_completed}
use distri_store.Download.Partition.{IsSplit, fresh-IsSplit, WorkerOk}
use distri_store.Download.Progress.{indices}
use distri_store.Download.Completion.{IsCompleted}
use distri_store.Download.Delivery.{merge_store, download_worker_delivers}
use distri_store.Crypto.Tests.{toy, toy_laws, toy_salt, toy_nonce}
use distri_store.Chunker.{stream_chunks, seal_chunk}
use distri_store.Local.Contents.{HoldsAll}
use distri_store.Pipeline.Order.{entries, infos}
use distri_store.Pipeline.RoundTrip.{sealed}
use distri_store.Download.Flush.{LagOk, chunk_loop-LagOk}
use distri_store.Download.Steps.{ManagerOk, AllFiles}
use distri_store.Download.Safety.{here, next, start, clear, Reach-ManagerOk}
use distri_store.Download.Recovery.{IsNamed, init_recovers}
use distri_store.Download.Stale.{cleared_failure_never_restarts}

abbrev info : ℕ → ChunkInfo
info i = record { index = i; chunk_hash = i ∷ []; size = 1; encrypted = false }

abbrev manifest : FileManifest
manifest = record {
  original_filename = codes "a";
  original_size = 2;
  file_hash = codes "f";
  chunk_size = 1;
  merkle_root = [];
  compression = [];
  chunks = info 1 ∷ info 0 ∷ [];
}

abbrev state : DownloadState
state = record {
  file_hash = codes "f";
  filename = codes "a";
  total_chunks = 2;
  total_size = 2;
  missing_chunks = 0 ∷ 1 ∷ [];
  completed_chunks = [];
  started_at = 1;
  updated_at = 1;
  status = downloading;
  error_message = [];
  password = [];
}

abbrev saved : ResumeDict
saved = to_resume_dict state

abbrev worker : Worker
worker = record { state = state; resume_file = some saved; store = []; chunks_since_flush = 0 }

all_missing : IsSplit 2 (0 ∷ 1 ∷ []) []
unfolding range_from
all_missing = fresh-IsSplit 2

worker-WorkerOk : WorkerOk 2 worker
unfolding to_resume_dict
worker-WorkerOk = record { total_kept = refl; state = all_missing; resume_file = all_missing }

abbrev quiet : ℕ → Bool
quiet i = false

abbrev fetch : Str → Fetched
fetch h = arrived (9 ∷ [])

-- The second chunk cannot be fetched.
abbrev fetch_first : Str → Fetched
fetch_first h = elim (str_eq h (0 ∷ [])) [ true ↦ arrived (9 ∷ []) | false ↦ failed (codes "gone") ]

abbrev merge : Dict Bytes → Merged
merge store = merged

chunk_loop-LagOk_example :
    LagOk (chunk_loop 3 quiet fetch (0 ∷ 1 ∷ []) (info 0 ∷ info 1 ∷ []) worker).1
unfolding to_resume_dict
chunk_loop-LagOk_example =
    chunk_loop-LagOk 3 quiet fetch (0 ∷ 1 ∷ []) (info 0 ∷ info 1 ∷ []) worker (record {
      saved = saved;
      file = refl;
      recent = [];
      split = refl;
      few = omega arith;
      bound = omega arith;
    })

abbrev file : Bytes
file = 10 ∷ 20 ∷ 30 ∷ []

-- The manifest of the file in chunks of two bytes, without a password.
abbrev file_manifest : FileManifest
file_manifest = record {
  original_filename = codes "a";
  original_size = 3;
  file_hash = file;
  chunk_size = 2;
  merkle_root = [];
  compression = codes "zstd";
  chunks = infos (sealed toy toy_laws toy_salt (λ i. toy_nonce) [] refl (λ i. refl) 2 file);
}

covered : (i : ℕ) → elem i (0 ∷ 1 ∷ []) ≡ true → elem i (indices file_manifest.chunks) ≡ true
unfolding elem stream_chunks seal_chunk
covered i h = ground arith

none_stored :
    (c : ChunkInfo)
    → Mem c file_manifest.chunks
    → elem c.index (0 ∷ 1 ∷ []) ≡ false
    → has_chunk [] c.chunk_hash ≡ true
unfolding elem stream_chunks seal_chunk
none_stored c m h =
    Or.elim (Bool-set _ _) (eq-or-mem_of_mem-cons m) (λ same. absurd (true≢false (rw same at h)))
      (λ later.
        Or.elim (Bool-set _ _) (eq-or-mem_of_mem-cons later)
          (λ same. absurd (true≢false (rw same at h))) (λ nowhere. absurd (not-mem-nil nowhere)))

named :
    HoldsAll
      (λ h. some h)
      (entries (sealed toy toy_laws toy_salt (λ i. toy_nonce) [] refl (λ i. refl) 2 file))
unfolding stream_chunks seal_chunk
named = (refl, (refl, tt))

nothing_stored : (h b : Str) → Dict.get worker.store h ≡ some b → b ≡ h
unfolding Dict.get
nothing_stored h b e = absurd (cc)

download_worker_delivers_example : IsCompleted 2 (
    download_worker 3 quiet
      (λ h. arrived h)
      file_manifest
      (merge_store toy (λ e. []) file_manifest [])
      worker)
download_worker_delivers_example =
    download_worker_delivers toy toy_laws toy_salt (λ i. toy_nonce) [] refl (λ i. refl)
      file_manifest file 2 (λ e. []) 3 (λ h. h) 2 worker (omega arith) refl refl refl named refl
      worker-WorkerOk covered none_stored nothing_stored

abbrev files : Dict (Option ResumeDict)
files = (codes "f", some saved) ∷ []

files-AllFiles : AllFiles files
unfolding to_resume_dict
files-AllFiles = (all_missing, tt)

abbrev restarted : Manager
restarted = (start_download 3 (codes "f") manifest [] (init files)).0

Reach-ManagerOk_example : ManagerOk (clear_completed restarted)
Reach-ManagerOk_example =
    Reach-ManagerOk files files-AllFiles
      (next (next here (start 3 (codes "f") manifest [] (init files))) (clear restarted))

abbrev running : Manager
running = record {
  downloads = (codes "f", state) ∷ [];
  tasks = (codes "f", false) ∷ [];
  cancel_events = (codes "f", false) ∷ [];
  resume_files = files;
}

running_tracked : Dict.get running.downloads (codes "f") ≡ some state
unfolding Dict.get str_eq
running_tracked = refl

files-IsDistinct : IsDistinct files
unfolding Dict.get
files-IsDistinct = (refl, tt)

files-IsNamed : IsNamed files
unfolding to_resume_dict
files-IsNamed = (refl, tt)

files_found : Dict.get files (codes "f") ≡ some (some saved)
unfolding Dict.get str_eq
files_found = refl

init_recovers_example :
    Dict.get (init files).downloads (codes "f")
    ≡ some (record (from_resume_dict saved) { status = paused })
init_recovers_example = init_recovers files (codes "f") files-IsDistinct files-IsNamed files_found

abbrev broken : Manager
broken = record {
  downloads = (codes "f", record state { status = error; error_message = codes "gone" }) ∷ [];
  tasks = (codes "f", true) ∷ [];
  cancel_events = (codes "f", false) ∷ [];
  resume_files = files;
}

broken_tracked :
    Dict.get broken.downloads (codes "f")
    ≡ some (record state { status = error; error_message = codes "gone" })
unfolding Dict.get str_eq
broken_tracked = refl

saved_running : saved.status ≡ some downloading
unfolding to_resume_dict
saved_running = refl

cleared_failure_never_restarts_example :
    ((start_download 5 (codes "f") manifest [] (clear_completed broken)).0 ≡ clear_completed broken)
    × ((resume_download (codes "f") true [] (clear_completed broken)).0 ≡ clear_completed broken)
    × (Dict.get (clear_completed broken).tasks (codes "f") ≡ none)
cleared_failure_never_restarts_example =
    cleared_failure_never_restarts 5 (codes "f") manifest true [] broken broken_tracked refl
      files_found saved_running
