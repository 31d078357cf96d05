-- ===== src/Chunker/Streaming.antt =====
-- `chunk_file_streaming`: the chunks are not compressed, and each is encrypted under a salt of its
-- own. `salts i` and `nonces i` are drawn for chunk `i`.
use distri_store.Prelude.{
  ℕ, ◌<◌, ◌≡◌, refl, ap, ◌∙◌, Option, none, some, List, [], ◌∷◌, ◌++◌, map, Str, Bytes, length, not,
  inl, inr, Bool-cases, if◌then◌else◌,
}
use distri_store.Merkle.{compute_merkle_root}
use distri_store.Manifest.{FileManifest, is_empty}
use distri_store.Crypto.{
  file_not_found, salt_size, nonce_size, Result, ok, err, ◌>>=◌, Primitives, PrimitiveLaws, encrypt,
  decrypt,
}
use distri_store.Crypto.RoundTrip.{decrypt-encrypt}
use distri_store.Chunker.{stream_chunks, streaming_file_hash, Sealed, hash_of}
use distri_store.Chunker.Stream.{join_chunks, stream_chunks_lem}

module _ (p : Primitives) where
  -- One turn of the loop.
  unfoldable pub seal_raw : (ℕ → Bytes) → (ℕ → Bytes) → Str → ℕ × Bytes → Sealed
  unfolding encrypt
  seal_raw salts nonces password (idx, raw_bytes) =
      let encrypted = not (is_empty password) in
      let chunk_bytes =
        if encrypted then encrypt p (salts idx) (nonces idx) raw_bytes password else raw_bytes in
      record {
        info = record {
          index = idx;
          chunk_hash = p.sha256_hash chunk_bytes;
          size = length chunk_bytes;
          encrypted = encrypted;
        };
        bytes = chunk_bytes;
      }

  -- The manifest after the last chunk, and the chunks that are yielded.
  unfoldable pub chunk_file_streaming :
      (ℕ → Bytes) → (ℕ → Bytes) → Str → Option Bytes → ℕ → Str → Result (FileManifest × List Bytes)
  unfolding stream_chunks streaming_file_hash seal_raw
  chunk_file_streaming salts nonces name none chunk_size password = err file_not_found
  chunk_file_streaming salts nonces name (some file) chunk_size password =
      let sealed_chunks = map (seal_raw salts nonces password) (stream_chunks chunk_size file) in
      ok (
        record {
          original_filename = name;
          original_size = length file;
          file_hash = streaming_file_hash p file;
          chunk_size = chunk_size;
          merkle_root = compute_merkle_root p.sha256_hash (map hash_of sealed_chunks);
          compression = [];
          chunks = map (λ s. s.info) sealed_chunks;
        },
        map (λ s. s.bytes) sealed_chunks,
      )

  -- Each chunk opened by itself, under the key of its own salt.
  abbrev pub opened_singly : Str → List Bytes → Result Bytes
  opened_singly password [] = ok []
  opened_singly password (c ∷ l) = do
    b ← if is_empty password then ok c else decrypt p c password
    bs ← opened_singly password l
    ok (b ++ bs)

  module _ (laws : PrimitiveLaws p) where
    opened_singly-seal_raw :
        (salts nonces : ℕ → Bytes) (password : Str) (l : List (ℕ × Bytes))
        → ((i : ℕ) → length (salts i) ≡ salt_size)
        → ((i : ℕ) → length (nonces i) ≡ nonce_size)
        → opened_singly password (map (λ s. s.bytes) (map (seal_raw salts nonces password) l))
          ≡ ok (join_chunks l)
    unfolding seal_raw
    opened_singly-seal_raw salts nonces password [] hs hn = refl
    opened_singly-seal_raw salts nonces password ((i, raw) ∷ l) hs hn =
        let more = opened_singly-seal_raw salts nonces password l hs hn in
        let one = (decrypt-encrypt p laws (salts i) (nonces i) raw password (hs i) (hn i)).0 in
        elim (Bool-cases (is_empty password)) [
          | inl plain ↦ rw (plain, more) refl
          | inr keyed ↦ rw (keyed, one, more) refl
        ]

    -- For a chunk size above 0, salts of 16 bytes and nonces of 12: streaming a file succeeds, and
    -- the chunks that are yielded, each decrypted by itself when there is a password, join to the file.
    pub chunk_file_streaming_lem :
        (salts nonces : ℕ → Bytes) (name : Str) (file : Bytes) (chunk_size : ℕ) (password : Str)
        → 0 < chunk_size
        → ((i : ℕ) → length (salts i) ≡ salt_size)
        → ((i : ℕ) → length (nonces i) ≡ nonce_size)
        → (do
          r ← chunk_file_streaming salts nonces name (some file) chunk_size password
          opened_singly password r.1)
          ≡ ok file
    unfolding chunk_file_streaming
    chunk_file_streaming_lem salts nonces name file chunk_size password h hs hn =
        opened_singly-seal_raw salts nonces password (stream_chunks chunk_size file) hs hn
        ∙ ap ok (stream_chunks_lem chunk_size file h).0
