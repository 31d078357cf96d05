-- ===== src/Pipeline.antt =====
-- backend/file_engine/pipeline.py: chunking, merging and streaming over asynchronous stores. One
-- chunk is stored before the next store begins, and one is loaded before it is opened, so that the
-- overlap with the workers does not show. A call-back that raises gives `none`.
pub mod Order
pub mod Loops
pub mod RoundTrip
mod Tests
use distri_store.Prelude.{
  ℕ, Bool, true, false, ◌&&◌, not, Option, none, some, List, [], ◌∷◌, ◌++◌, map, Str, Bytes, codes,
  length, leb, if◌then◌else◌,
}
use distri_store.Prelude.Sort.{sort_by}
use distri_store.Merkle.{compute_merkle_root}
use distri_store.Manifest.{ChunkInfo, FileManifest, is_empty}
use distri_store.Crypto.{
  salt_size, Error, file_not_found, zstd_error, chunk_missing, store_failed, Result, ok, err, ◌>>=◌,
  or_raise, Primitives, slice, derive_key, worker_encrypt_keyed, worker_decrypt_keyed,
}
use distri_store.Crypto.Parallel.{worker_decrypt_keyed_nocompress}
use distri_store.Chunker.{
  get_optimal_chunk_size, stream_chunks, streaming_file_hash, Sealed, hash_of, use_zstd, keys_of,
  close_output,
}

abbrev pub by_index : ChunkInfo → ChunkInfo → Bool
by_index a b = leb a.index b.index

-- The stores, one after the other: the state after them, and the hash whose store raised.
unfoldable pub store_all {ℓ} :
    {S : Type ℓ} → (Str → Bytes → S → Option S) → List Sealed → S → S × Option Str
store_all store_fn [] s = (s, none)
store_all store_fn (c ∷ l) s = elim (store_fn c.info.chunk_hash c.bytes s) [
  | none ↦ (s, some c.info.chunk_hash)
  | some t ↦ store_all store_fn l t
]

abbrev pub chosen_size : Option ℕ → ℕ → ℕ
chosen_size none file_size = get_optimal_chunk_size file_size
chosen_size (some n) file_size = n

module _ (p : Primitives) where
  open p use {sha256_hash, compress, decompress}

  -- The workers on one chunk.
  unfoldable pub seal_piped : Option (Bytes × Bytes) → (ℕ → Bytes) → ℕ × Bytes → Sealed
  unfolding worker_encrypt_keyed
  seal_piped keys nonces (idx, raw_bytes) = elim keys [
    | some ks ↦
        let (ct, ch) = worker_encrypt_keyed p (nonces idx) raw_bytes ks.0 ks.1 in
        record {
          info = record { index = idx; chunk_hash = ch; size = length ct; encrypted = true };
          bytes = ct;
        }
    | none ↦
        let ct = compress raw_bytes in
        record {
          info = record {
            index = idx;
            chunk_hash = sha256_hash ct;
            size = length ct;
            encrypted = false;
          };
          bytes = ct;
        }
  ]

  unfoldable pub pipeline_chunk_and_store {ℓ} :
      {S : Type ℓ}
      → Bytes
      → (ℕ → Bytes)
      → (Str → Bytes → S → Option S)
      → Str
      → Option Bytes
      → Option ℕ
      → Str
      → S
      → S × Result FileManifest
  unfolding stream_chunks streaming_file_hash seal_piped store_all derive_key get_optimal_chunk_size
  pipeline_chunk_and_store random nonces store_fn name none chunk_size password s =
      (s, err file_not_found)
  pipeline_chunk_and_store random nonces store_fn name (some file) chunk_size password s =
      let size = chosen_size chunk_size (length file) in
      let sealed_chunks =
        map (seal_piped (keys_of p random password) nonces) (stream_chunks size file) in
      let (stored, failed) = store_all store_fn sealed_chunks s in
      (
        stored,
        elim failed [
          | some h ↦ err (store_failed h)
          | none ↦ ok (record {
            original_filename = name;
            original_size = length file;
            file_hash = streaming_file_hash p file;
            chunk_size = size;
            merkle_root = compute_merkle_root sha256_hash (map hash_of sealed_chunks);
            compression = codes "zstd";
            chunks = map (λ s. s.info) sealed_chunks;
          })
        ],
      )

  -- A chunk opened with a key; without one it may still be compressed.
  unfoldable pub open_keyed : Bool → Bytes → Bytes → Result Bytes
  unfolding worker_decrypt_keyed worker_decrypt_keyed_nocompress
  open_keyed zstd key body =
      if zstd then worker_decrypt_keyed p body key else worker_decrypt_keyed_nocompress p body key

  unfoldable pub open_unkeyed : Bool → Bytes → Result Bytes
  open_unkeyed zstd body = if zstd then or_raise zstd_error (decompress body) else ok body

  abbrev pub key_from : Str → Bytes → Bytes
  key_from password body = (derive_key p [] password (some (slice 1 salt_size body))).0

  -- The merge derives the key of each chunk from the salt of that chunk.
  unfoldable pub open_piped : Bool → Str → ChunkInfo → Bytes → Result Bytes
  unfolding open_keyed open_unkeyed derive_key
  open_piped zstd password info body =
      if info.encrypted && not (is_empty password)
      then open_keyed zstd (key_from password body) body
      else open_unkeyed zstd body

  abbrev pub fetch : (Str → Option Bytes) → ChunkInfo → Result Bytes
  fetch load_fn info = or_raise (chunk_missing info.chunk_hash) (load_fn info.chunk_hash)

  -- The loop of the merge: what is written, what is hashed, and the exception that ended it.
  unfoldable pub write_piped :
      (Str → Option Bytes)
      → Bool
      → Str
      → List ChunkInfo
      → Bytes
      → Bytes
      → Bytes × (Bytes × Option Error)
  unfolding open_piped
  write_piped load_fn zstd password [] written hashed = (written, (hashed, none))
  write_piped load_fn zstd password (info ∷ rest) written hashed =
      elim (fetch load_fn info >>= open_piped zstd password info) [
        | err e ↦ (written, (hashed, some e))
        | ok plaintext ↦
            write_piped load_fn zstd password rest (written ++ plaintext) (hashed ++ plaintext)
      ]

  unfoldable pub pipeline_merge_to_disk :
      FileManifest → (Str → Option Bytes) → Str → Option Bytes × Result {0} Unit
  unfolding write_piped
  pipeline_merge_to_disk m load_fn password =
      close_output p m (write_piped load_fn (use_zstd m) password (sort_by by_index m.chunks) [] [])

  -- The stream keeps the key that it derived from the first chunk that needed one.
  abbrev pub kept_key : Str → Option Bytes → Bytes → Bytes
  kept_key password none body = key_from password body
  kept_key password (some key) body = key

  -- What is yielded, and the exception that ended the stream.
  unfoldable pub stream_loop :
      (Str → Option Bytes) → Bool → Str → Option Bytes → List ChunkInfo → List Bytes × Option Error
  unfolding open_keyed open_unkeyed derive_key
  stream_loop load_fn zstd password dec_key [] = ([], none)
  stream_loop load_fn zstd password dec_key (info ∷ rest) = elim (fetch load_fn info) [
    | err e ↦ ([], some e)
    | ok body ↦
        let key = kept_key password dec_key body in
        let keyed = info.encrypted && not (is_empty password) in
        elim (if keyed then open_keyed zstd key body else open_unkeyed zstd body) [
          | err e ↦ ([], some e)
          | ok plaintext ↦
              let (later, raised) =
                stream_loop load_fn zstd password (if keyed then some key else dec_key) rest in
              (plaintext ∷ later, raised)
        ]
  ]

  unfoldable pub pipeline_stream_file :
      FileManifest → (Str → Option Bytes) → Str → List Bytes × Option Error
  unfolding stream_loop
  pipeline_stream_file m load_fn password =
      stream_loop load_fn (use_zstd m) password none (sort_by by_index m.chunks)
