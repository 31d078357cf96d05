-- ===== src/Chunker/Tests.antt =====
-- Chunking and merging, run on small files.
use distri_store.Prelude.{
  ℕ, ◌≡◌, ◌⊎◌, refl, false, some, List, [], ◌∷◌, Bytes, codes, length, arith, str_eq,
}
use distri_store.Prelude.Sort.{insert_by, sort_by}
use distri_store.Merkle.{compute_merkle_root}
use distri_store.Manifest.{ChunkInfo, FileManifest}
use distri_store.Crypto.{ok, ◌>>=◌}
use distri_store.Crypto.Tests.{toy, toy_laws, toy_salt, toy_nonce}
use distri_store.Chunker.{chunk_file, ordered, merge_chunks, merge_chunks_to_disk}
use distri_store.Chunker.RoundTrip.{merge_chunks-chunk_file}
use distri_store.Chunker.Integrity.{
  AllHashed, stored_hashes, merge_chunks_checks, merge_chunks_to_disk-merge_chunks,
}

abbrev file : Bytes
file = 10 ∷ 20 ∷ 30 ∷ 40 ∷ 50 ∷ []

abbrev info : ℕ → Bytes → ChunkInfo
info i b = record { index = i; chunk_hash = b; size = length b; encrypted = false }

-- Two uncompressed chunks, out of order, and no Merkle root.
abbrev manifest : FileManifest
manifest = record {
  original_filename = codes "a";
  original_size = 5;
  file_hash = file;
  chunk_size = 3;
  merkle_root = [];
  compression = [];
  chunks = info 1 (40 ∷ 50 ∷ []) ∷ info 0 (10 ∷ 20 ∷ 30 ∷ []) ∷ [];
}

abbrev chunk_data : List Bytes
chunk_data = (40 ∷ 50 ∷ []) ∷ (10 ∷ 20 ∷ 30 ∷ []) ∷ []

manifest_merges : merge_chunks toy manifest chunk_data [] ≡ ok file
unfolding merge_chunks insert_by str_eq sort_by
manifest_merges = refl

merge_chunks-chunk_file_example :
    (do
      r ← chunk_file toy toy_salt (λ i. toy_nonce) (codes "a") (some file) 2 (codes "key")
      merge_chunks toy r.0 r.1 (codes "key"))
    ≡ ok file
merge_chunks-chunk_file_example =
    merge_chunks-chunk_file toy toy_laws toy_salt (λ i. toy_nonce) (codes "a") file 2 (codes "key")
      (omega arith) refl (λ i. refl)

merge_chunks_checks_example :
    AllHashed toy (ordered manifest chunk_data)
    × ((manifest.merkle_root ≡ [])
        ⊎ (compute_merkle_root toy.sha256_hash (stored_hashes toy (ordered manifest chunk_data))
            ≡ manifest.merkle_root))
    × (toy.sha256_hash file ≡ file)
merge_chunks_checks_example = merge_chunks_checks toy manifest chunk_data [] file manifest_merges

merge_chunks_to_disk-merge_chunks_example :
    merge_chunks_to_disk toy manifest chunk_data [] ≡ (some file, ok tt)
merge_chunks_to_disk-merge_chunks_example =
    merge_chunks_to_disk-merge_chunks toy manifest chunk_data [] file manifest_merges
