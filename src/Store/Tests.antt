-- ===== src/Store/Tests.antt =====
-- A manifest saved in a fresh database.
use distri_store.Prelude.{◌≡◌, true, some, inl, [], ◌∷◌, codes, str_eq, if◌then◌else◌}
use distri_store.Manifest.{FileManifest, ManifestDict, default_chunk_size, to_dict, from_dict}
use distri_store.Store.{NodeDatabase, save_manifest, get_manifest}
use distri_store.Store.Manifests.{get_manifest-save_manifest}

abbrev small : FileManifest
small = record {
  original_filename = codes "a";
  original_size = 4;
  file_hash = codes "f";
  chunk_size = 1048576;
  merkle_root = codes "c0";
  compression = codes "zstd";
  chunks = (record { index = 0; chunk_hash = codes "c0"; size = 4; encrypted = true }) ∷ [];
}

abbrev fresh : NodeDatabase
fresh = record { peers = []; manifests = [] }

get_manifest-save_manifest_example :
    (d : ManifestDict) × (get_manifest (codes "f") (save_manifest (codes "f") (to_dict small) fresh)
      ≡ (if str_eq (codes "f") (codes "f") then some d else get_manifest (codes "f") fresh))
    × (from_dict (λ b. b) d ≡ some (record small { chunk_size = default_chunk_size }))
get_manifest-save_manifest_example =
    get_manifest-save_manifest (λ b. b) small fresh (codes "f") (inl (λ e. absurd (cc e)))
