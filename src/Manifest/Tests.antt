-- ===== src/Manifest/Tests.antt =====
-- A manifest with one chunk.
use distri_store.Prelude.{◌≡◌, refl, true, [], ◌∷◌, codes, str_eq}
use distri_store.Manifest.{FileManifest, verify_chunk}

abbrev small : FileManifest
small = record {
  original_filename = codes "a";
  original_size = 4;
  file_hash = codes "f";
  chunk_size = 4;
  merkle_root = codes "c0";
  compression = codes "zstd";
  chunks = (record { index = 0; chunk_hash = codes "c0"; size = 4; encrypted = true }) ∷ [];
}

accepted : verify_chunk small 0 (codes "c0") ≡ true
unfolding verify_chunk str_eq
accepted = refl
