-- ===== src/Chunker/Buffer.antt =====
-- The preallocated buffer and the output file both hold the opened chunks, joined.
use mathlib.Core.List.{append-nil, append_assoc}
use distri_store.Prelude.{
  ℕ, ◌+◌, ◌≡◌, refl, sym, ap, ◌∙◌, Bool, Option, none, inl, inr, ◌⊎◌, List, [], ◌∷◌, ◌++◌, Str,
  Bytes, length, length-append, drop, arith,
}
use distri_store.Manifest.{ChunkInfo}
use distri_store.Crypto.{Error, Result, ok, err, ◌>>=◌, Primitives}
use distri_store.Crypto.RoundTrip.{take_append, drop_append}
use distri_store.Chunker.{open_chunk, assign_slice, fill_buffer, write_chunks}

pub Result-cases {ℓ} :
    {A : Type ℓ} (r : Result A) → ((a : A) × (r ≡ ok a)) ⊎ ((e : Error) × (r ≡ err e))
Result-cases (ok a) = inl (a, refl)
Result-cases (err e) = inr (e, refl)

assign_slice_lem :
    (done tail b : Bytes) (offset : ℕ)
    → length done ≡ offset
    → assign_slice (done ++ tail) offset b ≡ (done ++ b) ++ drop (length b) tail
assign_slice_lem done tail b offset h =
    rw (take_append offset done tail h, drop_append offset (length b) done tail h)
      (sym (append_assoc done b (drop (length b) tail)))

pub ok-injective {ℓ} : {A : Type ℓ} {a b : A} → ok a ≡ ok b → a ≡ b
ok-injective e = cc

pub ok-ne-err {ℓ} : {A : Type ℓ} {a : A} {e : Error} → ok a ≡ err e → ⊥
ok-ne-err h = cc

module _ (p : Primitives) (dec_key : Option Bytes) (zstd : Bool) (password : Str) where
  -- What merging is to produce: the opened chunks in their order, or the first failure.
  abbrev pub opened : List (ChunkInfo × Bytes) → Result Bytes
  opened [] = ok []
  opened (c ∷ l) = do b ← open_chunk p dec_key zstd password c; bs ← opened l; ok (b ++ bs)

  regroup :
      (r : Result Bytes) (done b : Bytes)
      → (do bs ← r; ok ((done ++ b) ++ bs))
        ≡ (do rest ← (do bs ← r; ok (b ++ bs)); ok (done ++ rest))
  regroup (ok bs) done b = ap ok (append_assoc done b bs)
  regroup (err e) done b = refl

  -- From a buffer whose first `offset` bytes are done, the loop returns these and the opened
  -- chunks, whatever the rest of the buffer holds and however long it is; or the first failure.
  pub fill_buffer_lem :
      (l : List (ChunkInfo × Bytes)) (done tail : Bytes) (offset : ℕ)
      → length done ≡ offset
      → fill_buffer p dec_key zstd password l (done ++ tail) offset
        ≡ (do bs ← opened l; ok (done ++ bs))
  unfolding fill_buffer
  fill_buffer_lem [] done tail offset h =
      rw (take_append offset done tail h) (ap ok (sym (append-nil done)))
  fill_buffer_lem (c ∷ l) done tail offset h =
      elim (Result-cases (open_chunk p dec_key zstd password c)) [
        | inr (e, failed) ↦ rw failed refl
        | inl (b, found) ↦ rw found (
            rw (assign_slice_lem done tail b offset h) (
              fill_buffer_lem l (done ++ b) (drop (length b) tail) (offset + length b)
                (omega (arith, length-append done b))
              ∙ regroup (opened l) done b))
      ]

  -- The loop that writes ends without an exception exactly if all chunks open, with the same bytes
  -- in the file and in the hash: those that were there and the opened chunks.
  pub write_chunks_lem :
      (l : List (ChunkInfo × Bytes)) (done bs : Bytes)
      → opened l ≡ ok bs
      → write_chunks p dec_key zstd password l done done ≡ (done ++ bs, (done ++ bs, none))
  unfolding write_chunks
  write_chunks_lem [] done bs h =
      ap (λ (x : Bytes). (x, (x, none)))
        (sym (append-nil done) ∙ ap (λ (x : Bytes). done ++ x) (ok-injective h))
  write_chunks_lem (c ∷ l) done bs h = elim (Result-cases (open_chunk p dec_key zstd password c)) [
    | inr (e, failed) ↦ absurd (ok-ne-err (sym (rw failed at h)))
    | inl (b, found) ↦ elim (Result-cases (opened l)) [
      | inr (e, failed) ↦ absurd (ok-ne-err (sym (rw (found, failed) at h)))
      | inl (rest, found_rest) ↦
          let all : b ++ rest ≡ bs = ok-injective (rw (found, found_rest) at h) in
          rw (found, write_chunks)
            (write_chunks_lem l (done ++ b) rest found_rest
              ∙ ap (λ (x : Bytes). (x, (x, none)))
                  (append_assoc done b rest ∙ ap (λ (x : Bytes). done ++ x) all))
    ]
  ]
