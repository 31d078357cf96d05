-- ===== src/Chunker/RoundTrip.antt =====
-- A file that is chunked and merged.
use mathlib.Core.Path.{subst}
use distri_store.Prelude.{
  ℕ, suc, ◌≤◌, ◌<◌, ◌≡◌, refl, sym, ap, ◌∙◌, true, false, Option, none, some, inl, inr, List, [],
  ◌∷◌, map, Str, Bytes, codes, encode, length, str_eq, str_eq_iff, str_eq_refl, replicate,
  Bool-cases, arith,
}
use distri_store.Prelude.Sort.{AtMost, IsSorted, sort_by, sort_by_sorted}
use distri_store.Merkle.{compute_merkle_root}
use distri_store.Manifest.{ChunkInfo, FileManifest, is_empty}
use distri_store.Crypto.{salt_size, nonce_size, ok, ◌>>=◌, Primitives, PrimitiveLaws, derive_key}
use distri_store.Crypto.RoundTrip.{slice-encrypt_with_key, decrypt_with_key-encrypt_with_key}
use distri_store.Chunker.{
  stream_chunks, Sealed, zip, hash_of, streaming_file_hash, seal_chunk, keys_of, chunk_file,
  by_index, ordered, check_hashes, check_root, shared_key, open_chunk, use_zstd, merge_chunks,
}
use distri_store.Chunker.Stream.{join_chunks, IsChunked, stream_chunks_lem, streaming_file_hash_lem}
use distri_store.Chunker.Buffer.{opened, fill_buffer_lem}

abbrev pub pairs : List Sealed → List (ChunkInfo × Bytes)
pairs [] = []
pairs (s ∷ l) = (s.info, s.bytes) ∷ pairs l

pub zip-map :
    (l : List Sealed)
    → zip (map (λ (s : Sealed). s.info) l) (map (λ (s : Sealed). s.bytes) l) ≡ pairs l
zip-map [] = refl
zip-map (s ∷ l) = rw (zip-map l) refl

module _ (p : Primitives) (laws : PrimitiveLaws p) where
  module _ (keys : Option (Bytes × Bytes)) (nonces : ℕ → Bytes) where
    abbrev pub sealed_chunks : List (ℕ × Bytes) → List Sealed
    sealed_chunks l = map (seal_chunk p keys nonces) l

    seal_chunks-AtMost :
        (n i : ℕ) (l : List (ℕ × Bytes)) (c : ChunkInfo × Bytes)
        → c.0.index ≤ i
        → IsChunked n i l
        → AtMost by_index c (pairs (sealed_chunks l))
    unfolding seal_chunk
    seal_chunks-AtMost n i [] c h k = tt
    seal_chunks-AtMost n i ((x, b) ∷ l) c h k =
        (let e : x ≡ i = k.0 in ground arith, seal_chunks-AtMost n (suc i) l c (omega arith) k.3)

    pub seal_chunks-IsSorted :
        (n i : ℕ) (l : List (ℕ × Bytes))
        → IsChunked n i l
        → IsSorted by_index (pairs (sealed_chunks l))
    unfolding seal_chunk
    seal_chunks-IsSorted n i [] k = tt
    seal_chunks-IsSorted n i ((x, b) ∷ l) k = (
      seal_chunks-AtMost n (suc i) l
          ((seal_chunk p keys nonces (x, b)).info, (seal_chunk p keys nonces (x, b)).bytes)
          (let e : x ≡ i = k.0 in let le : x ≤ suc i = omega arith in le) k.3,
      seal_chunks-IsSorted n (suc i) l k.3,
    )

    check_hashes_sealed :
        (l : List (ℕ × Bytes))
        → check_hashes p (pairs (sealed_chunks l)) ≡ ok (map hash_of (sealed_chunks l))
    unfolding check_hashes seal_chunk
    check_hashes_sealed [] = refl
    check_hashes_sealed (c ∷ l) =
        rw (str_eq_refl (seal_chunk p keys nonces c).info.chunk_hash, check_hashes_sealed l) refl

  open_plain :
      (nonces : ℕ → Bytes) (password : Str) (key : Option Bytes) (c : ℕ × Bytes)
      → let s = seal_chunk p none nonces c in
        open_chunk p key true password (s.info, s.bytes) ≡ ok c.1
  unfolding open_chunk seal_chunk
  open_plain nonces password key c = rw (laws.decompresses c.1) refl

  open_keyed :
      (nonces : ℕ → Bytes) (password : Str) (key salt : Bytes) (c : ℕ × Bytes)
      → length salt ≡ salt_size
      → length (nonces c.0) ≡ nonce_size
      → is_empty password ≡ false
      → let s = seal_chunk p (some (key, salt)) nonces c in
        open_chunk p (some key) true password (s.info, s.bytes) ≡ ok c.1
  unfolding open_chunk seal_chunk
  open_keyed nonces password key salt c hr hn e =
      rw
        (
          e,
          decrypt_with_key-encrypt_with_key p laws (nonces c.0) (p.compress c.1) key salt hr hn,
          laws.decompresses c.1,
        )
        refl

  -- The key that merging derives opens what was sealed.
  open_sealed :
      (random : Bytes) (nonces : ℕ → Bytes) (password : Str) (key : Option Bytes) (c : ℕ × Bytes)
      → length random ≡ salt_size
      → ((i : ℕ) → length (nonces i) ≡ nonce_size)
      → (is_empty password ≡ false → key ≡ some (p.pbkdf2_hmac (encode password) random))
      → let s = seal_chunk p (keys_of p random password) nonces c in
        open_chunk p key true password (s.info, s.bytes) ≡ ok c.1
  unfolding derive_key
  open_sealed random nonces password key c hr hn hk =
      let Opens : Option Bytes → Option (Bytes × Bytes) → Type 0 = λ key keys.
        let s = seal_chunk p keys nonces c in
        open_chunk p key true password (s.info, s.bytes) ≡ ok c.1 in
      let derived = p.pbkdf2_hmac (encode password) random in
      elim (Bool-cases (is_empty password)) as (λ b. Opens key (keys_of p random password)) [
        | inl e ↦
            let plain : keys_of p random password ≡ none = rw e refl in
            subst (Opens key) (sym plain) (open_plain nonces password key c)
        | inr e ↦
            let keyed : keys_of p random password ≡ some (derived, random) = rw e refl in
            rw (hk e) (
              subst (Opens (some derived)) (sym keyed)
                (open_keyed nonces password derived random c hr (hn c.0) e))
      ]

  shared_key_sealed :
      (random : Bytes) (nonces : ℕ → Bytes) (password : Str) (c : ℕ × Bytes) (l : List (ℕ × Bytes))
      → length random ≡ salt_size
      → is_empty password ≡ false
      → shared_key p
          (pairs (map (seal_chunk p (keys_of p random password) nonces) (c ∷ l)))
          password
        ≡ some (p.pbkdf2_hmac (encode password) random)
  unfolding shared_key seal_chunk derive_key
  shared_key_sealed random nonces password c l hr e =
      rw
        (
          e,
          slice-encrypt_with_key p laws (nonces c.0) (p.compress c.1)
              (p.pbkdf2_hmac (encode password) random) random hr,
        )
        refl

  opened_sealed :
      (random : Bytes) (nonces : ℕ → Bytes) (password : Str) (key : Option Bytes)
      (l : List (ℕ × Bytes))
      → length random ≡ salt_size
      → ((i : ℕ) → length (nonces i) ≡ nonce_size)
      → (is_empty password ≡ false → key ≡ some (p.pbkdf2_hmac (encode password) random))
      → opened p key true password (pairs (map (seal_chunk p (keys_of p random password) nonces) l))
        ≡ ok (join_chunks l)
  opened_sealed random nonces password key [] hr hn hk = refl
  opened_sealed random nonces password key (c ∷ l) hr hn hk =
      rw
        (
          open_sealed random nonces password key c hr hn hk,
          opened_sealed random nonces password key l hr hn hk,
        )
        refl

  pub opened_all :
      (random : Bytes) (nonces : ℕ → Bytes) (password : Str) (l : List (ℕ × Bytes))
      → length random ≡ salt_size
      → ((i : ℕ) → length (nonces i) ≡ nonce_size)
      → let s = pairs (map (seal_chunk p (keys_of p random password) nonces) l) in
        opened p (shared_key p s password) true password s ≡ ok (join_chunks l)
  opened_all random nonces password [] hr hn = refl
  opened_all random nonces password (c ∷ l) hr hn =
      opened_sealed random nonces password _ (c ∷ l) hr hn
        (shared_key_sealed random nonces password c l hr)

  check_root_lem :
      (m : FileManifest) (received : List Str)
      → compute_merkle_root p.sha256_hash received ≡ m.merkle_root
      → check_root p m received ≡ ok tt
  unfolding check_root
  check_root_lem m received e =
      ground (arith, str_eq_iff (compute_merkle_root p.sha256_hash received) m.merkle_root)

  merge_chunks_of :
      (m : FileManifest) (ds : List Bytes) (password : Str) {l : List (ChunkInfo × Bytes)}
      {received : List Str} {bytes : Bytes}
      → ordered m ds ≡ l
      → check_hashes p l ≡ ok received
      → check_root p m received ≡ ok tt
      → opened p (shared_key p l password) (use_zstd m) password l ≡ ok bytes
      → str_eq (p.sha256_hash bytes) m.file_hash ≡ true
      → merge_chunks p m ds password ≡ ok bytes
  unfolding merge_chunks
  merge_chunks_of m ds password {l = l} in_order hashed rooted open_all whole =
      let filled =
        fill_buffer_lem p (shared_key p l password) (use_zstd m) password l []
          (replicate m.original_size 0) 0 refl in
      rw (in_order, hashed, rooted, filled, open_all, whole) refl

  -- For a chunk size above 0, a salt of 16 bytes and nonces of 12: chunking a file, with or without
  -- a password, succeeds, and merging its manifest and chunks under the same password passes the
  -- checks of the chunk hashes, the Merkle root and the file hash and returns the file.
  pub merge_chunks-chunk_file :
      (random : Bytes) (nonces : ℕ → Bytes) (name : Str) (file : Bytes) (chunk_size : ℕ)
      (password : Str)
      → 0 < chunk_size
      → length random ≡ salt_size
      → ((i : ℕ) → length (nonces i) ≡ nonce_size)
      → (do
        r ← chunk_file p random nonces name (some file) chunk_size password
        merge_chunks p r.0 r.1 password)
        ≡ ok file
  unfolding chunk_file ordered str_eq
  merge_chunks-chunk_file random nonces name file chunk_size password h hr hn =
      let keys = keys_of p random password in
      let l = stream_chunks chunk_size file in
      let s = map (seal_chunk p keys nonces) l in
      let (joined, chunked) = stream_chunks_lem chunk_size file h in
      let in_order : sort_by by_index
            (zip (map (λ (s : Sealed). s.info) s) (map (λ (s : Sealed). s.bytes) s))
          ≡ pairs s =
        ap (sort_by by_index) (zip-map s)
        ∙ sort_by_sorted by_index (pairs s)
            (seal_chunks-IsSorted keys nonces chunk_size 0 l chunked) in
      let whole : str_eq (p.sha256_hash file) (streaming_file_hash p file) ≡ true =
        rw (streaming_file_hash_lem p file) (str_eq_refl (p.sha256_hash file)) in
      let m : FileManifest = record {
        original_filename = name;
        original_size = length file;
        file_hash = streaming_file_hash p file;
        chunk_size = chunk_size;
        merkle_root = compute_merkle_root p.sha256_hash (map hash_of s);
        compression = codes "zstd";
        chunks = map (λ s. s.info) s;
      } in
      merge_chunks_of m (map (λ s. s.bytes) s) password in_order (check_hashes_sealed keys nonces l)
        (check_root_lem m (map hash_of s) refl)
        (opened_all random nonces password l hr hn ∙ ap ok joined) whole
