-- ===== src/Chunker.antt =====
-- backend/file_engine/chunker.py: a file is cut into chunks that are compressed, encrypted under a
-- password and hashed, and put together again, in memory or on disk. A file is its bytes; `none`
-- is a path that does not exist. An empty password is no password, as Python's `if password` has it.
pub mod Stream
pub mod Buffer
pub mod Streaming
pub mod RoundTrip
pub mod Integrity
pub mod ToDisk
mod Tests
use distri_store.Prelude.{
  ℕ, zero, suc, ◌+◌, ◌≡◌, Bool, true, false, ◌&&◌, not, Option, none, some, List, [], ◌∷◌, ◌++◌,
  map, Str, Bytes, codes, str_eq, length, take, drop, replicate, ltb, leb, if◌then◌else◌,
}
use distri_store.Prelude.Sort.{sort_by}
use distri_store.Merkle.{compute_merkle_root}
use distri_store.Manifest.{ChunkInfo, FileManifest, is_empty}
use distri_store.Crypto.{
  salt_size, Error, file_not_found, zstd_error, chunk_hash_mismatch, merkle_root_mismatch,
  integrity_check_failed, Result, ok, err, ◌>>=◌, or_raise, Primitives, slice, derive_key,
  encrypt_with_key, decrypt_with_key, decrypt,
}

unfoldable pub get_optimal_chunk_size : ℕ → ℕ
get_optimal_chunk_size file_size_bytes =
    if ltb file_size_bytes 52428800
    then 262144
    else if ltb file_size_bytes 524288000
    then 1048576
    else 4194304

-- The generator's `f.read(chunk_size)` until nothing is read. The first argument bounds the number
-- of chunks: the bytes that are left are enough, for each chunk but the last read takes one.
unfoldable pub stream_from : ℕ → ℕ → ℕ → Bytes → List (ℕ × Bytes)
stream_from zero chunk_size idx rest = []
stream_from (suc fuel) chunk_size idx rest =
    let chunks = stream_from fuel chunk_size (suc idx) (drop chunk_size rest) in
    if is_empty (take chunk_size rest) then [] else (idx, take chunk_size rest) ∷ chunks

unfoldable pub stream_chunks : ℕ → Bytes → List (ℕ × Bytes)
unfolding stream_from
stream_chunks chunk_size file = stream_from (length file) chunk_size 0 file

-- hashlib: what was given to `update` so far; `hexdigest` is the hash of all of it.
unfoldable pub hash_blocks : ℕ → Bytes → Bytes → Bytes
hash_blocks zero hashed rest = hashed
hash_blocks (suc fuel) hashed rest =
    let block = take 65536 rest in
    let hashed_all = hash_blocks fuel (hashed ++ block) (drop 65536 rest) in
    if is_empty block then hashed else hashed_all

pub record Sealed : Type 0 where
  pub info : ChunkInfo
  pub bytes : Bytes

-- `manifest.chunks` beside `chunk_data_list`
abbrev pub zip {ℓ κ} : {A : Type ℓ} {B : Type κ} → List A → List B → List (A × B)
zip [] bs = []
zip (a ∷ l) [] = []
zip (a ∷ l) (b ∷ bs) = (a, b) ∷ zip l bs

abbrev pub hash_of : Sealed → Str
hash_of s = s.info.chunk_hash

-- `sorted(zip(manifest.chunks, chunk_data_list), key=lambda x: x[0].index)`
abbrev pub by_index : ChunkInfo × Bytes → ChunkInfo × Bytes → Bool
by_index a b = leb a.0.index b.0.index

unfoldable pub ordered : FileManifest → List Bytes → List (ChunkInfo × Bytes)
ordered m chunk_data_list = sort_by by_index (zip m.chunks chunk_data_list)

abbrev pub use_zstd : FileManifest → Bool
use_zstd m = str_eq m.compression (codes "zstd")

-- `buffer[offset:offset + len(data)] = data`
abbrev pub assign_slice : Bytes → ℕ → Bytes → Bytes
assign_slice buffer offset bytes =
    take offset buffer ++ (bytes ++ drop (offset + length bytes) buffer)

module _ (p : Primitives) where
  open p use {sha256_hash, compress, decompress}

  unfoldable pub streaming_file_hash : Bytes → Str
  unfolding hash_blocks
  streaming_file_hash file = sha256_hash (hash_blocks (length file) [] file)

  -- One turn of the loop of `chunk_file`, with the key and the salt when there is a password.
  unfoldable pub seal_chunk : Option (Bytes × Bytes) → (ℕ → Bytes) → ℕ × Bytes → Sealed
  unfolding encrypt_with_key
  seal_chunk keys nonces (idx, raw_bytes) =
      let compressed = compress raw_bytes in
      let chunk_bytes : Bytes = elim keys [
        | none ↦ compressed
        | some ks ↦ encrypt_with_key p (nonces idx) compressed ks.0 ks.1
      ] in
      let encrypted : Bool = elim keys [ none ↦ false | some ks ↦ true ] in
      record {
        info = record {
          index = idx;
          chunk_hash = sha256_hash chunk_bytes;
          size = length chunk_bytes;
          encrypted = encrypted;
        };
        bytes = chunk_bytes;
      }

  abbrev pub keys_of : Bytes → Str → Option (Bytes × Bytes)
  keys_of random password =
      if is_empty password then none else some (derive_key p random password none)

  unfoldable pub chunk_file :
      Bytes → (ℕ → Bytes) → Str → Option Bytes → ℕ → Str → Result (FileManifest × List Bytes)
  unfolding stream_chunks streaming_file_hash seal_chunk derive_key
  chunk_file random nonces name none chunk_size password = err file_not_found
  chunk_file random nonces name (some file) chunk_size password =
      let sealed_chunks =
        map (seal_chunk (keys_of random password) nonces) (stream_chunks chunk_size file) in
      ok (
        record {
          original_filename = name;
          original_size = length file;
          file_hash = streaming_file_hash file;
          chunk_size = chunk_size;
          merkle_root = compute_merkle_root sha256_hash (map hash_of sealed_chunks);
          compression = codes "zstd";
          chunks = map (λ s. s.info) sealed_chunks;
        },
        map (λ s. s.bytes) sealed_chunks,
      )

  unfoldable pub check_hashes : List (ChunkInfo × Bytes) → Result (List Str)
  check_hashes [] = ok []
  check_hashes ((info, bytes) ∷ l) =
      let checked = check_hashes l in
      if str_eq (sha256_hash bytes) info.chunk_hash
      then (do received ← checked; ok (sha256_hash bytes ∷ received))
      else err (chunk_hash_mismatch info.index)

  unfoldable pub check_root : FileManifest → List Str → Result {0} Unit
  check_root m received =
      if not (is_empty m.merkle_root)
        && not (str_eq (compute_merkle_root sha256_hash received) m.merkle_root)
      then err merkle_root_mismatch
      else ok tt

  -- The key of all chunks, from the salt of the first.
  unfoldable pub shared_key : List (ChunkInfo × Bytes) → Str → Option Bytes
  unfolding derive_key
  shared_key [] password = none
  shared_key ((info, bytes) ∷ l) password =
      if not (is_empty password) && info.encrypted
      then some (derive_key p [] password (some (slice 1 salt_size bytes))).0
      else none

  unfoldable pub open_chunk : Option Bytes → Bool → Str → ChunkInfo × Bytes → Result Bytes
  unfolding decrypt_with_key decrypt
  open_chunk dec_key use_zstd password (info, bytes) = do
    decrypted ←
        if info.encrypted && not (is_empty password)
        then elim dec_key [
          | some key ↦ decrypt_with_key p bytes key
          | none ↦ decrypt p bytes password
        ]
        else ok bytes
    if use_zstd then or_raise zstd_error (decompress decrypted) else ok decrypted

  unfoldable pub fill_buffer :
      Option Bytes → Bool → Str → List (ChunkInfo × Bytes) → Bytes → ℕ → Result Bytes
  unfolding open_chunk
  fill_buffer dec_key zstd password [] buffer offset = ok (take offset buffer)
  fill_buffer dec_key zstd password (c ∷ l) buffer offset = do
    bytes ← open_chunk dec_key zstd password c
    fill_buffer dec_key zstd password l (assign_slice buffer offset bytes) (offset + length bytes)

  abbrev pub check_file : FileManifest → Bytes → Result Bytes
  check_file m bytes =
      if str_eq (sha256_hash bytes) m.file_hash then ok bytes else err integrity_check_failed

  unfoldable pub merge_chunks : FileManifest → List Bytes → Str → Result Bytes
  unfolding ordered check_hashes check_root shared_key fill_buffer
  merge_chunks m chunk_data_list password = do
    let l = ordered m chunk_data_list
    received ← check_hashes l
    root ← check_root m received
    merged ←
        fill_buffer (shared_key l password) (use_zstd m) password l (replicate m.original_size 0) 0
    check_file m merged

  -- The file that is written, the bytes that are hashed, and the exception that ended the loop.
  unfoldable pub write_chunks :
      Option Bytes
      → Bool
      → Str
      → List (ChunkInfo × Bytes)
      → Bytes
      → Bytes
      → Bytes × (Bytes × Option Error)
  unfolding open_chunk
  write_chunks dec_key zstd password [] written hashed = (written, (hashed, none))
  write_chunks dec_key zstd password (c ∷ l) written hashed =
      elim (open_chunk dec_key zstd password c) [
        | ok bytes ↦ write_chunks dec_key zstd password l (written ++ bytes) (hashed ++ bytes)
        | err e ↦ (written, (hashed, some e))
      ]

  -- After the loop: what is at the output path, and what the call returns. An exception in the
  -- loop leaves what was written so far.
  abbrev pub close_output :
      FileManifest → Bytes × (Bytes × Option Error) → Option Bytes × Result {0} Unit
  close_output m (written, (hashed, some e)) = (some written, err e)
  close_output m (written, (hashed, none)) =
      if str_eq (sha256_hash hashed) m.file_hash
      then (some written, ok tt)
      else (none, err integrity_check_failed)

  unfoldable pub merge_chunks_to_disk :
      FileManifest → List Bytes → Str → Option Bytes × Result {0} Unit
  unfolding ordered shared_key write_chunks
  merge_chunks_to_disk m chunk_data_list password =
      let l = ordered m chunk_data_list in
      close_output m (write_chunks (shared_key l password) (use_zstd m) password l [] [])
