-- ===== src/Chunker/Stream.antt =====
-- The chunks that are read from a file, and the hash that is streamed over it.
use mathlib.Core.List.{append-nil, append_assoc}
use distri_store.Prelude.{
  ℕ, zero, suc, ◌≤◌, ◌<◌, ◌≡◌, refl, sym, ap, ◌∙◌, true, false, inl, inr, List, [], ◌∷◌, ◌++◌,
  Bytes, length, length-take, length-drop, take, drop, take-append-drop, Bool-cases, arith,
}
use distri_store.Manifest.{is_empty}
use distri_store.Crypto.{Primitives}
use distri_store.Chunker.{stream_from, stream_chunks, hash_blocks, streaming_file_hash}

-- `b"".join(…)` of the chunks' bytes
abbrev pub join_chunks : List (ℕ × Bytes) → Bytes
join_chunks [] = []
join_chunks ((i, b) ∷ l) = b ++ join_chunks l

-- The chunks carry the numbers from `i` on, and each has at least one byte and at most `n`.
abbrev pub IsChunked : ℕ → ℕ → List (ℕ × Bytes) → Type 0
IsChunked n i [] = Unit
IsChunked n i ((j, b) ∷ l) = (j ≡ i) × (0 < length b) × (length b ≤ n) × IsChunked n (suc i) l

is_empty-length : (b : Bytes) → is_empty b ≡ true → length b ≡ 0
is_empty-length [] h = refl
is_empty-length (x ∷ b) h = ground arith

is_empty-length_pos : (b : Bytes) → is_empty b ≡ false → 0 < length b
is_empty-length_pos [] h = ground arith
is_empty-length_pos (x ∷ b) h = omega arith

length-zero : (b : Bytes) → length b ≡ 0 → b ≡ []
length-zero [] h = refl
length-zero (x ∷ b) h = absurd (omega arith)

-- Nothing is read only at the end of the file.
at_end : (n : ℕ) (rest : Bytes) → 0 < n → is_empty (take n rest) ≡ true → rest ≡ []
at_end n rest hn e =
    length-zero rest (omega (arith, is_empty-length (take n rest) e, length-take n rest))

shorter : (n fuel : ℕ) (rest : Bytes) → 0 < n → length rest ≤ suc fuel → length (drop n rest) ≤ fuel
shorter n fuel rest hn h = omega (arith, length-drop n rest)

join_stream_from :
    (fuel n i : ℕ) (rest : Bytes)
    → 0 < n
    → length rest ≤ fuel
    → join_chunks (stream_from fuel n i rest) ≡ rest
unfolding stream_from
join_stream_from zero n i rest hn h = sym (length-zero rest (omega arith))
join_stream_from (suc fuel) n i rest hn h = elim (Bool-cases (is_empty (take n rest))) [
  | inl e ↦ rw e (sym (at_end n rest hn e))
  | inr e ↦ rw e (
      rw (join_stream_from fuel n (suc i) (drop n rest) hn (shorter n fuel rest hn h))
        (take-append-drop n rest))
]

stream_from-IsChunked : (fuel n i : ℕ) (rest : Bytes) → IsChunked n i (stream_from fuel n i rest)
unfolding stream_from
stream_from-IsChunked zero n i rest = tt
stream_from-IsChunked (suc fuel) n i rest = elim (Bool-cases (is_empty (take n rest))) [
  | inl e ↦ rw e tt
  | inr e ↦ rw e (
    refl,
    is_empty-length_pos (take n rest) e,
    omega (arith, length-take n rest),
    stream_from-IsChunked fuel n (suc i) (drop n rest),
  )
]

-- For a chunk size above 0: the chunks joined are the file, they are numbered from 0 without a
-- gap, and none is empty or longer than the chunk size.
pub stream_chunks_lem :
    (chunk_size : ℕ) (file : Bytes)
    → 0 < chunk_size
    → (join_chunks (stream_chunks chunk_size file) ≡ file)
      × IsChunked chunk_size 0 (stream_chunks chunk_size file)
unfolding stream_chunks
stream_chunks_lem n file hn = (
  join_stream_from (length file) n 0 file hn (omega arith),
  stream_from-IsChunked (length file) n 0 file,
)

hash_blocks_lem :
    (fuel : ℕ) (hashed rest : Bytes)
    → length rest ≤ fuel
    → hash_blocks fuel hashed rest ≡ hashed ++ rest
unfolding hash_blocks
hash_blocks_lem zero hashed rest h = rw (length-zero rest (omega arith)) (sym (append-nil _))
hash_blocks_lem (suc fuel) hashed rest h = elim (Bool-cases (is_empty (take 65536 rest))) [
  | inl e ↦ rw e (rw (at_end 65536 rest (omega arith) e) (sym (append-nil _)))
  | inr e ↦ rw e (
      hash_blocks_lem fuel (hashed ++ take 65536 rest) (drop 65536 rest)
        (shorter 65536 fuel rest (omega arith) h)
      ∙ (append_assoc hashed (take 65536 rest) (drop 65536 rest)
          ∙ ap (λ b. hashed ++ b) (take-append-drop 65536 rest)))
]

-- The hash that is streamed over a file in blocks is the hash of the file.
pub streaming_file_hash_lem :
    (p : Primitives) (file : Bytes) → streaming_file_hash p file ≡ p.sha256_hash file
unfolding streaming_file_hash
streaming_file_hash_lem p file =
    ap p.sha256_hash (hash_blocks_lem (length file) [] file (omega arith))
