-- ===== src/Store/Manifests.antt =====
-- What is left of a manifest that went through the database.
use distri_store.Prelude.{
  ◌≡◌, ◌≢◌, ◌⊎◌, refl, some, [], Str, Bytes, str_eq, Bool-cases, inl, inr, arith, if◌then◌else◌,
}
use distri_store.Prelude.Dict
use distri_store.Prelude.Dict.{Dict, get-put, get-remove}
use distri_store.Manifest.{FileManifest, ManifestDict, default_chunk_size, to_dict, from_dict}
use distri_store.Manifest.RoundTrip.{from_dict-to_dict}
use distri_store.Store.{
  NodeDatabase, insert_or_replace, row_of, save_manifest, manifest_of_row, get_manifest,
}

pub get-insert_or_replace {ℓ} :
    {V : Type ℓ} (d : Dict V) (k : Str) (v : V) (j : Str)
    → Dict.get (insert_or_replace d k v) j ≡ (if str_eq k j then some v else Dict.get d j)
get-insert_or_replace d k v j = ground (arith, get-put (Dict.remove d k) k v j, get-remove d k j)

module _ (sha256_hash : Bytes → Str) where
  get_manifest_saved :
      (file_hash : Str) (d : ManifestDict) (db : NodeDatabase) (k : Str)
      → get_manifest k (save_manifest file_hash d db) ≡ (
          if str_eq file_hash k
          then some (manifest_of_row (row_of file_hash d))
          else get_manifest k db)
  unfolding get_manifest save_manifest
  get_manifest_saved file_hash d db k =
      let found = get-insert_or_replace db.manifests file_hash (row_of file_hash d) k in
      elim (Bool-cases (str_eq file_hash k)) [
        | inl same ↦ rw (found, same) refl
        | inr other ↦ rw (found, other) refl
      ]

  -- Saving a manifest that has a root or no chunks: what is loaded under its file hash reads as
  -- the manifest but for its chunk size, which is the default one, and every other file hash
  -- loads what it loaded before.
  pub get_manifest-save_manifest :
      (m : FileManifest) (db : NodeDatabase) (k : Str)
      → (m.merkle_root ≢ []) ⊎ (m.chunks ≡ [])
      → (d : ManifestDict) × (get_manifest k (save_manifest m.file_hash (to_dict m) db)
          ≡ (if str_eq m.file_hash k then some d else get_manifest k db))
        × (from_dict sha256_hash d ≡ some (record m { chunk_size = default_chunk_size }))
  unfolding to_dict from_dict manifest_of_row row_of
  get_manifest-save_manifest m db k h = (
    manifest_of_row (row_of m.file_hash (to_dict m)),
    get_manifest_saved m.file_hash (to_dict m) db k,
    from_dict-to_dict sha256_hash (record m { chunk_size = default_chunk_size }) h,
  )
