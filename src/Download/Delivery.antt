-- ===== src/Download/Delivery.antt =====
-- The download of a stored file, up to the merge by `pipeline_merge_to_disk`.
use mathlib.Core.Path.{subst}
use mathlib.Core.List.{Mem, mem-cons_self, mem-cons_of_mem}
use distri_store.Prelude.{
  ℕ, ◌<◌, ◌≡◌, refl, sym, ap, ◌∙◌, true, false, Option, some, List, [], ◌∷◌, Str, Bytes, codes,
  length,
}
use distri_store.Prelude.Count.{elem}
use distri_store.Prelude.Dict
use distri_store.Prelude.Dict.{Dict}
use distri_store.Manifest.{ChunkInfo, FileManifest}
use distri_store.Crypto.{salt_size, nonce_size, Error, Result, ok, err, Primitives, PrimitiveLaws}
use distri_store.Chunker.{Sealed}
use distri_store.Local.Contents.{HoldsAll}
use distri_store.Pipeline.{pipeline_merge_to_disk}
use distri_store.Pipeline.Order.{entries, infos}
use distri_store.Pipeline.RoundTrip.{sealed, merges}
use distri_store.Download.Partition.{WorkerOk}
use distri_store.Download.Progress.{indices}
use distri_store.Download.Completion.{IsCompleted, download_worker_completes}
use distri_store.Download.Worker.{
  Worker, arrived, Merged, merged, merge_failed, has_chunk, download_worker,
}

-- The `try` of `_final_merge`; `describe` is the text of an exception.
unfoldable pub merge_outcome : (Error → Str) → Result {0} Unit → Merged
merge_outcome describe (ok done) = merged
merge_outcome describe (err e) = merge_failed (describe e)

-- The merge by the pipeline, on the chunks in the store.
unfoldable pub merge_store : Primitives → (Error → Str) → FileManifest → Str → Dict Bytes → Merged
unfolding merge_outcome
merge_store p describe m password store =
    merge_outcome describe (pipeline_merge_to_disk p m (λ h. Dict.get store h) password).1

-- A store that has each entry's bytes under its hash.
holds_entries :
    (content : Str → Bytes) (store : Dict Bytes) (l : List Sealed)
    → ((c : ChunkInfo)
        → Mem c (infos l)
        → Dict.get store c.chunk_hash ≡ some (content c.chunk_hash))
    → HoldsAll (λ h. some (content h)) (entries l)
    → HoldsAll (λ h. Dict.get store h) (entries l)
holds_entries content store [] found named = tt
holds_entries content store (s ∷ l) found named = (
  found s.info mem-cons_self ∙ named.0,
  holds_entries content store l (λ c m. found c (mem-cons_of_mem s.info m)) named.1,
)

-- For a manifest of the chunks of a file (a chunk size above 0, a salt of 16 bytes and nonces of
-- 12), fetches that return these chunks, and a store in which nothing is but what they return: a
-- worker that is neither paused nor cancelled, with a chunk in the manifest for each missing index
-- and the other chunks in the store, completes the download with the merge of the pipeline under
-- the password of the download, which is the one that the chunks were made with. No chunk is
-- missing then, every index below the total is completed once, and no `.resume` file is left.
pub download_worker_delivers :
    (p : Primitives) (laws : PrimitiveLaws p) (random : Bytes) (nonces : ℕ → Bytes) (password : Str)
    (hr : length random ≡ salt_size) (hn : (i : ℕ) → length (nonces i) ≡ nonce_size)
    (m : FileManifest) (file : Bytes) (n : ℕ) (describe : Error → Str) (now : ℕ)
    (content : Str → Bytes) (total : ℕ) (w : Worker)
    → 0 < n
    → m.compression ≡ codes "zstd"
    → m.file_hash ≡ p.sha256_hash file
    → m.chunks ≡ infos (sealed p laws random nonces password hr hn n file)
    → HoldsAll (λ h. some (content h)) (entries (sealed p laws random nonces password hr hn n file))
    → w.state.password ≡ password
    → WorkerOk total w
    → ((i : ℕ) → elem i w.state.missing_chunks ≡ true → elem i (indices m.chunks) ≡ true)
    → ((c : ChunkInfo)
        → Mem c m.chunks
        → elem c.index w.state.missing_chunks ≡ false
        → has_chunk w.store c.chunk_hash ≡ true)
    → ((h : Str) (b : Bytes) → Dict.get w.store h ≡ some b → b ≡ content h)
    → IsCompleted total (
        download_worker now
          (λ i. false)
          (λ h. arrived (content h))
          m
          (merge_store p describe m w.state.password)
          w)
unfolding merge_store merge_outcome
download_worker_delivers p laws random nonces password hr hn m file n describe now content total w
      hn0 zstd hashed listed named own fine covered present genuine =
    let l = sealed p laws random nonces password hr hn n file in
    let done =
      download_worker_completes now (λ i. false) (λ h. arrived (content h)) (λ i. refl) content
        (λ h. refl) total m (merge_store p describe m password) w fine covered present genuine
        (λ store found.
          let held : HoldsAll (λ h. Dict.get store h) (entries l) =
            holds_entries content store l
              (λ c k. found c (subst (λ (x : List ChunkInfo). Mem c x) (sym listed) k)) named in
          let run =
            merges p laws random nonces password hr hn m (λ h. Dict.get store h) file n hn0 zstd
              hashed listed held in
          ap (λ (x : Option Bytes × Result {0} Unit). merge_outcome describe x.1) run) in
    subst
      (λ (x : Str). IsCompleted total (
        download_worker now (λ i. false) (λ h. arrived (content h)) m (merge_store p describe m x)
          w))
      (sym own) done
