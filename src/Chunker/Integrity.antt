-- ===== src/Chunker/Integrity.antt =====
-- What a merge that returned has checked, and that merging to disk writes the same bytes.
use distri_store.Prelude.{
  ◌≡◌, refl, sym, ap, ◌∙◌, Bool, true, Option, none, some, inl, inr, ◌⊎◌, List, [], ◌∷◌, ◌++◌, map,
  Str, Bytes, str_eq, str_eq_iff, replicate, Bool-cases, arith,
}
use distri_store.Merkle.{compute_merkle_root}
use distri_store.Manifest.{ChunkInfo, FileManifest, is_empty}
use distri_store.Crypto.{Error, Result, ok, err, ◌>>=◌, Primitives}
use distri_store.Chunker.{
  ordered, check_hashes, check_root, shared_key, use_zstd, fill_buffer, check_file, merge_chunks,
  write_chunks, open_chunk, close_output, merge_chunks_to_disk,
}
use distri_store.Chunker.Buffer.{
  opened, fill_buffer_lem, write_chunks_lem, Result-cases, ok-injective, ok-ne-err,
}

-- The result of a chain that succeeded comes from a step that succeeded.
bind-ok {ℓ κ} :
    {A : Type ℓ} {B : Type κ} (r : Result A) (f : A → Result B) {b : B}
    → (r >>= f) ≡ ok b
    → (a : A) × (r ≡ ok a) × (f a ≡ ok b)
bind-ok (ok a) f h = (a, refl, h)
bind-ok (err e) f h = absurd (ok-ne-err (sym h))

is_empty-nil : (l : Str) → is_empty l ≡ true → l ≡ []
is_empty-nil [] h = refl
is_empty-nil (x ∷ l) h = ground arith

module _ (p : Primitives) where
  -- Every chunk has the hash that its manifest entry names.
  abbrev pub AllHashed : List (ChunkInfo × Bytes) → Type 0
  AllHashed [] = Unit
  AllHashed ((info, bytes) ∷ l) = (p.sha256_hash bytes ≡ info.chunk_hash) × AllHashed l

  abbrev pub stored_hashes : List (ChunkInfo × Bytes) → List Str
  stored_hashes l = map (λ c. c.0.chunk_hash) l

  check_hashes_lem :
      (l : List (ChunkInfo × Bytes)) (received : List Str)
      → check_hashes p l ≡ ok received
      → AllHashed l × (received ≡ stored_hashes l)
  unfolding check_hashes
  check_hashes_lem [] received h = (tt, sym (ok-injective h))
  check_hashes_lem ((info, bytes) ∷ l) received h =
      elim (Bool-cases (str_eq (p.sha256_hash bytes) info.chunk_hash)) [
        | inr e ↦ absurd (ok-ne-err (sym (rw e at h)))
        | inl e ↦
            let same : p.sha256_hash bytes ≡ info.chunk_hash =
              ground (arith, str_eq_iff (p.sha256_hash bytes) info.chunk_hash) in
            let (rest, found, k) = bind-ok (check_hashes p l) _ (rw e at h) in
            let (all, r) = check_hashes_lem l rest found in
            (
              (same, all),
              sym (ok-injective k) ∙ (ap (λ x. x ∷ rest) same ∙ ap (λ x. info.chunk_hash ∷ x) r),
            )
      ]

  check_root-ok :
      (m : FileManifest) (received : List Str)
      → check_root p m received ≡ ok tt
      → (m.merkle_root ≡ []) ⊎ (compute_merkle_root p.sha256_hash received ≡ m.merkle_root)
  unfolding check_root
  check_root-ok m received h =
      elim (Bool-cases (str_eq (compute_merkle_root p.sha256_hash received) m.merkle_root)) [
        | inl e ↦ inr ((str_eq_iff _ _).0 e)
        | inr e ↦ elim (Bool-cases (is_empty m.merkle_root)) [
          | inl none_given ↦ inl (is_empty-nil m.merkle_root none_given)
          | inr given ↦ absurd (ok-ne-err (sym (rw (given, e) at h)))
        ]
      ]

  check_file-ok :
      (m : FileManifest) (merged bytes : Bytes)
      → check_file p m merged ≡ ok bytes
      → (merged ≡ bytes) × (p.sha256_hash bytes ≡ m.file_hash)
  check_file-ok m merged bytes h = elim (Bool-cases (str_eq (p.sha256_hash merged) m.file_hash)) [
    | inl e ↦
        let same = ok-injective (rw e at h) in
        (same, ap p.sha256_hash (sym same) ∙ (str_eq_iff _ _).0 e)
    | inr e ↦ absurd (ok-ne-err (sym (rw e at h)))
  ]

  -- What a successful merge went through.
  merge_chunks-ok :
      (m : FileManifest) (ds : List Bytes) (password : Str) (bytes : Bytes)
      → merge_chunks p m ds password ≡ ok bytes
      → let l = ordered m ds in
        (received : List Str) × (check_hashes p l ≡ ok received)
        × (check_root p m received ≡ ok tt)
        × (opened p (shared_key p l password) (use_zstd m) password l ≡ ok bytes)
        × (p.sha256_hash bytes ≡ m.file_hash)
  unfolding merge_chunks
  merge_chunks-ok m ds password bytes h =
      let l = ordered m ds in
      let key = shared_key p l password in
      let (received, hashed, h1) = bind-ok (check_hashes p l) _ h in
      let (root, rooted, h2) = bind-ok (check_root p m received) _ h1 in
      let (merged, filled, h3) =
        bind-ok (fill_buffer p key (use_zstd m) password l (replicate m.original_size 0) 0) _ h2 in
      let (same, whole) = check_file-ok m merged bytes h3 in
      let joined =
        sym (fill_buffer_lem p key (use_zstd m) password l [] (replicate m.original_size 0) 0 refl)
        ∙ filled in
      let (all, found, h4) = bind-ok (opened p key (use_zstd m) password l) _ joined in
      (received, hashed, rooted, found ∙ ap ok (ok-injective h4 ∙ same), whole)

  -- A merge that returns bytes has found every chunk to have the hash its manifest entry names and
  -- the hashes, in the order of the indices, to give the Merkle root, unless the manifest has none;
  -- and the bytes have the hash of the file.
  pub merge_chunks_checks :
      (m : FileManifest) (ds : List Bytes) (password : Str) (bytes : Bytes)
      → merge_chunks p m ds password ≡ ok bytes
      → AllHashed (ordered m ds)
        × ((m.merkle_root ≡ [])
            ⊎ (compute_merkle_root p.sha256_hash (stored_hashes (ordered m ds)) ≡ m.merkle_root))
        × (p.sha256_hash bytes ≡ m.file_hash)
  merge_chunks_checks m ds password bytes h =
      let (received, hashed, rooted, found, whole) = merge_chunks-ok m ds password bytes h in
      let (all, same) = check_hashes_lem (ordered m ds) received hashed in
      let r : List Str = stored_hashes (ordered m ds) in
      (all, check_root-ok m r (rw same at rooted), whole)

  -- When the merge in memory returns bytes, the merge to disk succeeds too and leaves exactly these
  -- bytes at the output path.
  pub merge_chunks_to_disk-merge_chunks :
      (m : FileManifest) (ds : List Bytes) (password : Str) (bytes : Bytes)
      → merge_chunks p m ds password ≡ ok bytes
      → merge_chunks_to_disk p m ds password ≡ (some bytes, ok tt)
  unfolding merge_chunks_to_disk
  merge_chunks_to_disk-merge_chunks m ds password bytes h =
      let l = ordered m ds in
      let (received, hashed, rooted, found, whole) = merge_chunks-ok m ds password bytes h in
      let written =
        write_chunks_lem p (shared_key p l password) (use_zstd m) password l [] bytes found in
      let same = (str_eq_iff (p.sha256_hash bytes) m.file_hash).1 whole in
      ap (close_output p m) written ∙ rw same refl

  write_chunks_same :
      (key : Option Bytes) (zstd : Bool) (password : Str) (l : List (ChunkInfo × Bytes))
      (done : Bytes)
      → let r = write_chunks p key zstd password l done done in r.0 ≡ r.1.0
  unfolding write_chunks
  write_chunks_same key zstd password [] done = refl
  write_chunks_same key zstd password (c ∷ l) done =
      elim (Result-cases (open_chunk p key zstd password c)) [
        | inl (b, found) ↦
            rw (found, write_chunks) (write_chunks_same key zstd password l (done ++ b))
        | inr (e, bad) ↦ rw (bad, write_chunks) refl
      ]

  close_output-ok :
      (m : FileManifest) (r : Bytes × (Bytes × Option Error)) (file : Option Bytes)
      → r.0 ≡ r.1.0
      → close_output p m r ≡ (file, ok tt)
      → (bytes : Bytes) × (file ≡ some bytes) × (p.sha256_hash bytes ≡ m.file_hash)
  close_output-ok m (written, (hashed, some e)) file same h =
      absurd (ok-ne-err (sym (ap (λ x. x.1) h)))
  close_output-ok m (written, (hashed, none)) file same h =
      elim (Bool-cases (str_eq (p.sha256_hash hashed) m.file_hash)) [
        | inr e ↦ absurd (ok-ne-err (sym (ap (λ x. x.1) (rw e at h))))
        | inl e ↦
            (written, sym (ap (λ x. x.0) (rw e at h)), ap p.sha256_hash same ∙ (str_eq_iff _ _).0 e)
      ]

  -- When the merge to disk returns without an exception, there is a file at the output path, and
  -- what it holds has the manifest's file hash.
  pub merge_chunks_to_disk_checks :
      (m : FileManifest) (ds : List Bytes) (password : Str) (file : Option Bytes)
      → merge_chunks_to_disk p m ds password ≡ (file, ok tt)
      → (bytes : Bytes) × (file ≡ some bytes) × (p.sha256_hash bytes ≡ m.file_hash)
  unfolding merge_chunks_to_disk
  merge_chunks_to_disk_checks m ds password file h =
      let l = ordered m ds in
      close_output-ok m _ file
        (write_chunks_same (shared_key p l password) (use_zstd m) password l []) h
