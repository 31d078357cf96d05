-- ===== src/Download/Worker.antt =====
-- `_download_worker`, `_final_merge` and `_save_resume`. The environment is given as two
-- functions: whether the pause signal is set when the worker comes to a chunk, and what the
-- fetch of a chunk brings. Each chunk is visited once, so they cover every timing.
use distri_store.Prelude.{
  ℕ, ◌+◌, Bool, true, false, not, Option, none, some, List, [], ◌∷◌, ◌++◌, Str, Bytes, codes, leb,
  if◌then◌else◌,
}
use distri_store.Prelude.Count.{elem}
use distri_store.Prelude.Dict
use distri_store.Prelude.Dict.{Dict}
use distri_store.Prelude.Sort.{sort_by}
use distri_store.Manifest.{ChunkInfo, FileManifest}
use distri_store.Download.{
  Status, paused, completed, error, DownloadState, ResumeDict, to_resume_dict, mark_completed,
}

abbrev pub flush_interval : ℕ
flush_interval = 10

-- What `await load_chunk_fn(hash)` does: it returns, raises, or is cancelled.
pub data Fetched : Type 0 where
  arrived : Bytes → Fetched
  failed : Str → Fetched
  interrupted : Fetched

-- What the worker can change: the shared state, its `.resume` file, the local store, and the
-- counter of chunks since the last flush.
pub record Worker : Type 0 where
  pub state : DownloadState
  pub resume_file : Option ResumeDict
  pub store : Dict Bytes
  pub chunks_since_flush : ℕ

-- `_save_resume`: stamps the state and replaces the file.
unfoldable pub save_resume : ℕ → Worker → Worker
save_resume now w =
    let stamped = record w.state { updated_at = now } in
    record w { state = stamped; resume_file = some (to_resume_dict stamped) }

unfoldable pub set_status : Status → Worker → Worker
set_status st w = record w { state = record w.state { status = st } }

unfoldable pub set_error : Str → Worker → Worker
set_error message w = record w {
  state = record w.state { status = error; error_message = message };
}

-- How the loop over the chunks ends.
pub data LoopEnd : Type 0 where
  all_visited pause_seen fetch_failed cancelled : LoopEnd

-- What `await pipeline_merge_to_disk(…)` does, for the chunks that the local store has.
pub data Merged : Type 0 where
  merged : Merged
  merge_failed : Str → Merged
  merge_cancelled : Merged

-- `local_store.has_chunk(h)`
unfoldable pub has_chunk : Dict Bytes → Str → Bool
has_chunk store h = elim (Dict.get store h) [ none ↦ false | some b ↦ true ]

-- The periodic flush.
unfoldable pub flush_due : ℕ → Worker → Worker
unfolding save_resume
flush_due now w =
    if leb flush_interval w.chunks_since_flush
    then record (save_resume now w) { chunks_since_flush = 0 }
    else w

-- The body of the loop after a fetch that returned: cache, mark, count, flush.
unfoldable pub take_chunk : ℕ → ChunkInfo → Bytes → Worker → Worker
take_chunk now info bytes w = flush_due now (record w {
  store =
      if has_chunk w.store info.chunk_hash then w.store else Dict.put w.store info.chunk_hash bytes;
  state = mark_completed info.index w.state;
  chunks_since_flush = w.chunks_since_flush + 1;
})

-- The end of the `try` round the fetch: `go` is the rest of the loop once the chunk is there.
unfoldable pub after_fetch : ℕ → Worker → (Bytes → LoopEnd × Worker) → Fetched → LoopEnd × Worker
after_fetch now w go (arrived bytes) = go bytes
after_fetch now w go (failed message) = (fetch_failed, set_error message (save_resume now w))
after_fetch now w go interrupted = (cancelled, save_resume now (set_status paused w))

abbrev pub by_index : ChunkInfo → ChunkInfo → Bool
by_index a b = leb a.index b.index

-- `_final_merge`, on the outcome of `pipeline_merge_to_disk`. A cancelled merge ends in the
-- handler of the worker.
unfoldable pub final_merge : ℕ → Merged → Worker → Worker
final_merge now merged w = record (save_resume now (set_status completed w)) { resume_file = none }
final_merge now (merge_failed message) w =
    save_resume now (set_error (codes "Merge failed: " ++ message) w)
final_merge now merge_cancelled w = save_resume now (set_status paused w)

abbrev pub finish : ℕ → (Dict Bytes → Merged) → LoopEnd × Worker → Worker
finish now merge (all_visited, w) = final_merge now (merge w.store) (save_resume now w)
finish now merge (_, w) = w

module _ (now : ℕ) (pause_set : ℕ → Bool) (load_chunk_fn : Str → Fetched) where
  -- `for info in ordered_chunks`; `wanted` is `missing_set`, taken before the loop.
  unfoldable pub chunk_loop : List ℕ → List ChunkInfo → Worker → LoopEnd × Worker
  unfolding after_fetch
  chunk_loop wanted [] w = (all_visited, w)
  chunk_loop wanted (info ∷ rest) w =
      let skip = chunk_loop wanted rest w in
      let go = λ (b : Bytes). chunk_loop wanted rest (take_chunk now info b w) in
      if not (elem info.index wanted)
      then skip
      else if pause_set info.index
      then (pause_seen, w)
      else after_fetch now w go (load_chunk_fn info.chunk_hash)

  unfoldable pub download_worker : FileManifest → (Dict Bytes → Merged) → Worker → Worker
  download_worker manifest merge w =
      finish now merge (chunk_loop w.state.missing_chunks (sort_by by_index manifest.chunks) w)
