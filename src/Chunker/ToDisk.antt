-- ===== src/Chunker/ToDisk.antt =====
-- A file that is chunked and merged to disk, by any manifest that lists its chunks.
use distri_store.Prelude.{
  ℕ, ◌<◌, ◌≡◌, refl, ap, ◌∙◌, true, none, some, List, [], map, Str, Bytes, codes, length, str_eq,
  str_eq_refl,
}
use distri_store.Prelude.Sort.{sort_by, sort_by_sorted}
use distri_store.Manifest.{FileManifest}
use distri_store.Crypto.{salt_size, nonce_size, ok, Primitives, PrimitiveLaws}
use distri_store.Chunker.{
  stream_chunks, Sealed, zip, seal_chunk, keys_of, by_index, ordered, shared_key, use_zstd,
  write_chunks, merge_chunks_to_disk,
}
use distri_store.Chunker.Stream.{stream_chunks_lem}
use distri_store.Chunker.Buffer.{write_chunks_lem}
use distri_store.Chunker.RoundTrip.{pairs, zip-map, seal_chunks-IsSorted, opened_all}

module _ (p : Primitives) (laws : PrimitiveLaws p) (random : Bytes) (nonces : ℕ → Bytes)
    (password : Str) (hr : length random ≡ salt_size)
    (hn : (i : ℕ) → length (nonces i) ≡ nonce_size) where
  abbrev sealed : ℕ → Bytes → List Sealed
  sealed n file = map (seal_chunk p (keys_of p random password) nonces) (stream_chunks n file)

  pub merges_to_disk :
      (m : FileManifest) (file : Bytes) (n : ℕ)
      → 0 < n
      → m.compression ≡ codes "zstd"
      → m.file_hash ≡ p.sha256_hash file
      → m.chunks ≡ map (λ (s : Sealed). s.info) (sealed n file)
      → merge_chunks_to_disk p m (map (λ (s : Sealed). s.bytes) (sealed n file)) password
        ≡ (some file, ok tt)
  unfolding merge_chunks_to_disk ordered
  merges_to_disk m file n h zstd hashed listed =
      let s = sealed n file in
      let (joined, chunked) = stream_chunks_lem n file h in
      let in_order : ordered m (map (λ (s : Sealed). s.bytes) s) ≡ pairs s =
        ap (λ cs. sort_by by_index (zip cs (map (λ (s : Sealed). s.bytes) s))) listed
        ∙ (ap (sort_by by_index) (zip-map s)
            ∙ sort_by_sorted by_index (pairs s) (
                seal_chunks-IsSorted p laws (keys_of p random password) nonces n 0
                  (stream_chunks n file) chunked)) in
      let compressed : use_zstd m ≡ true = rw zstd (str_eq_refl (codes "zstd")) in
      let written : write_chunks p (shared_key p (pairs s) password) true password (pairs s) [] []
          ≡ (file, (file, none)) =
        write_chunks_lem p (shared_key p (pairs s) password) true password (pairs s) [] file
          (opened_all p laws random nonces password (stream_chunks n file) hr hn ∙ ap ok joined) in
      let whole : str_eq (p.sha256_hash file) m.file_hash ≡ true =
        rw hashed (str_eq_refl (p.sha256_hash file)) in
      rw (in_order, compressed, written, whole) refl
