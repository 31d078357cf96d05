-- ===== src/Pipeline/RoundTrip.antt =====
-- A file that goes through the pipeline into the local store, and comes back.
use distri_store.Prelude.{
  ℕ, ◌<◌, ◌≡◌, refl, ap, ◌∙◌, true, Option, none, some, List, [], map, Str, Bytes, codes, length,
  str_eq, str_eq_refl,
}
use distri_store.Prelude.Sort.{sort_by, sort_by_sorted}
use distri_store.Merkle.{compute_merkle_root}
use distri_store.Manifest.{FileManifest}
use distri_store.Crypto.{
  salt_size, nonce_size, ◌>>=◌, store_failed, Result, ok, err, Primitives, PrimitiveLaws,
}
use distri_store.Chunker.{
  stream_chunks, Sealed, hash_of, streaming_file_hash, seal_chunk, keys_of, use_zstd,
}
use distri_store.Chunker.Stream.{stream_chunks_lem}
use distri_store.Local.Contents.{HoldsAll}
use distri_store.Pipeline.{
  by_index, store_all, write_piped, pipeline_merge_to_disk, pipeline_stream_file,
}
use distri_store.Pipeline.Order.{blocks, entries, infos, infos-IsSorted}
use distri_store.Pipeline.Loops.{write_piped_lem, stream_loop_lem, keys_of-IsKeyed}

module _ (p : Primitives) (laws : PrimitiveLaws p) (random : Bytes) (nonces : ℕ → Bytes)
    (password : Str) (hr : length random ≡ salt_size)
    (hn : (i : ℕ) → length (nonces i) ≡ nonce_size) where
  abbrev pub sealed : ℕ → Bytes → List Sealed
  sealed n file = map (seal_chunk p (keys_of p random password) nonces) (stream_chunks n file)

  -- A manifest of the sealed chunks of a file, over a store that holds them.
  module _ (m : FileManifest) (load_fn : Str → Option Bytes) (file : Bytes) (n : ℕ) (hn0 : 0 < n)
      (zstd : m.compression ≡ codes "zstd") (hashed : m.file_hash ≡ p.sha256_hash file)
      (listed : m.chunks ≡ infos (sealed n file))
      (held : HoldsAll load_fn (entries (sealed n file))) where
    in_order : sort_by by_index m.chunks ≡ infos (sealed n file)
    in_order =
        ap (sort_by by_index) listed
        ∙ sort_by_sorted by_index _ (
            infos-IsSorted p (keys_of p random password) nonces n 0 (stream_chunks n file)
              (stream_chunks_lem n file hn0).1)

    compressed : use_zstd m ≡ true
    compressed = rw zstd (str_eq_refl (codes "zstd"))

    pub merges : pipeline_merge_to_disk p m load_fn password ≡ (some file, ok tt)
    unfolding pipeline_merge_to_disk
    merges =
        let keys = keys_of p random password in
        let l = stream_chunks n file in
        let joined = (stream_chunks_lem n file hn0).0 in
        let written : write_piped p load_fn true password (infos (map (seal_chunk p keys nonces) l))
              [] []
            ≡ (file, (file, none)) =
          write_piped_lem p laws random nonces password hr hn load_fn keys l []
            (keys_of-IsKeyed p laws random nonces password hr hn) held
          ∙ ap (λ (x : Bytes). (x, (x, none))) joined in
        let whole : str_eq (p.sha256_hash file) m.file_hash ≡ true =
          rw hashed (str_eq_refl (p.sha256_hash file)) in
        rw (in_order, compressed, written, whole) refl

    pub streams : pipeline_stream_file p m load_fn password ≡ (blocks (stream_chunks n file), none)
    unfolding pipeline_stream_file
    streams =
        rw (in_order, compressed)
          (stream_loop_lem p laws random nonces password hr hn load_fn (keys_of p random password)
            (stream_chunks n file) (keys_of-IsKeyed p laws random nonces password hr hn) held)

module _ {ℓ} {S : Type ℓ} (p : Primitives) (store_fn : Str → Bytes → S → Option S) (name : Str)
    (file : Bytes) (n : ℕ) where
  abbrev stored_manifest : List Sealed → FileManifest
  stored_manifest chunks = record {
    original_filename = name;
    original_size = length file;
    file_hash = streaming_file_hash p file;
    chunk_size = n;
    merkle_root = compute_merkle_root p.sha256_hash (map hash_of chunks);
    compression = codes "zstd";
    chunks = infos chunks;
  }

  -- What the pipeline makes of the chunks that it has sealed.
  abbrev outcome : S → List Sealed → S × Result FileManifest
  outcome s chunks =
      let (stored, failed) = store_all store_fn chunks s in
      (stored, elim failed [ some h ↦ err (store_failed h) | none ↦ ok (stored_manifest chunks) ])
