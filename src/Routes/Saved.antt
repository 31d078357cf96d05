-- ===== src/Routes/Saved.antt =====
-- What an upload leaves in the store.
use mathlib.Core.Path.{subst}
use distri_store.Prelude.{
  ℕ, ◌≡◌, ◌⊎◌, refl, sym, ap, ◌∙◌, Option, some, inl, inr, List, [], ◌∷◌, map, Str, Bytes,
  str_eq_refl, Bool-cases, arith,
}
use distri_store.Prelude.Dict.{Dict}
use distri_store.Merkle.Binding.{Collision}
use distri_store.Manifest.{
  FileManifest, ManifestDict, default_chunk_size, is_empty, to_dict, from_dict, fill_root,
}
use distri_store.Manifest.RoundTrip.{chunks_from_dicts-map}
use distri_store.Crypto.{Primitives}
use distri_store.Store.{NodeDatabase, row_of, manifest_of_row}
use distri_store.Store
use distri_store.Store.Manifests.{get-insert_or_replace}
use distri_store.Chunker.{Sealed, zip}
use distri_store.Chunker.RoundTrip.{pairs}
use distri_store.Local
use distri_store.Local.{LocalStore, load_chunk, load_manifest}
use distri_store.Local.Contents.{saved, HoldsAll, AllNamed, saved-HoldsAll}
use distri_store.Node.{PeerInfo, NodeState, get_alive_peers}
use distri_store.Replicate.{save_all}
use distri_store.Replication.{Links, World, replicate_chunks, replicate_loop}
use distri_store.Replication.Copies.{replicate_loop-save_all}
use distri_store.Pipeline.Order.{entries}
use distri_store.Routes.Upload.{store_upload}

-- The dictionary that the database gives back for a manifest.
abbrev pub stored_dict : FileManifest → ManifestDict
stored_dict m = manifest_of_row (row_of m.file_hash (to_dict m))

module _ (sha256_hash : Bytes → Str) where
  abbrev pub read_back : FileManifest → FileManifest
  read_back m = fill_root sha256_hash (record m { chunk_size = default_chunk_size })

  pub from_dict-stored_dict :
      (m : FileManifest) → from_dict sha256_hash (stored_dict m) ≡ some (read_back m)
  unfolding from_dict to_dict manifest_of_row row_of
  from_dict-stored_dict m = rw (chunks_from_dicts-map m.chunks) refl

  -- Filling in a root changes nothing else.
  pub fill_root-kept :
      (m : FileManifest)
      → let r = fill_root sha256_hash m in
        (r.chunks ≡ m.chunks)
        × (r.compression ≡ m.compression)
        × (r.file_hash ≡ m.file_hash)
        × (r.original_filename ≡ m.original_filename)
  unfolding fill_root
  fill_root-kept m = ground arith

save_all-saved :
    (now : ℕ) (l : List Sealed) (store : LocalStore) (s : NodeState)
    → (save_all now (pairs l) store s).0 ≡ saved now (entries l) store
unfolding save_all
save_all-saved now [] store s = refl
save_all-saved now (c ∷ l) store s = save_all-saved now l _ _

saved-db : (now : ℕ) (l : List (Str × Bytes)) (s : LocalStore) → (saved now l s).db ≡ s.db
unfolding Local.save_chunk
saved-db now [] s = refl
saved-db now (e ∷ l) s = saved-db now l _

load_manifest-save_manifest :
    (h : Str) (d : ManifestDict) (s : LocalStore)
    → load_manifest h (Local.save_manifest h d s) ≡ some (manifest_of_row (row_of h d))
unfolding load_manifest Local.save_manifest Store.get_manifest Store.save_manifest
load_manifest-save_manifest h d s =
    rw (get-insert_or_replace s.db.manifests h (row_of h d) h, str_eq_refl h) refl

-- What the store is to hold.
pub record IsStored (sha256_hash : Bytes → Str) (m : FileManifest) (l : List Sealed)
    (s : LocalStore) : Type 0 where
  pub listed : load_manifest m.file_hash s ≡ some (stored_dict m)
  pub held : HoldsAll (λ h. load_chunk h s) (entries l) ⊎ Collision sha256_hash

IsStored-manifest_last :
    (sha256_hash : Bytes → Str) (now : ℕ) (m : FileManifest) (l : List Sealed) (s : LocalStore)
    → AllNamed sha256_hash (entries l)
    → IsStored sha256_hash m l
        (Local.save_manifest m.file_hash (to_dict m) (saved now (entries l) s))
unfolding Local.save_manifest load_chunk
IsStored-manifest_last sha256_hash now m l s named = record {
  listed = load_manifest-save_manifest m.file_hash (to_dict m) (saved now (entries l) s);
  held = saved-HoldsAll sha256_hash now (entries l) s named;
}

IsStored-chunks_last :
    (sha256_hash : Bytes → Str) (now : ℕ) (m : FileManifest) (l : List Sealed) (s : LocalStore)
    → AllNamed sha256_hash (entries l)
    → IsStored sha256_hash m l
        (saved now (entries l) (Local.save_manifest m.file_hash (to_dict m) s))
unfolding load_manifest
IsStored-chunks_last sha256_hash now m l s named = record {
  listed =
      ap (Store.get_manifest m.file_hash)
        (saved-db now (entries l) (Local.save_manifest m.file_hash (to_dict m) s))
      ∙ load_manifest-save_manifest m.file_hash (to_dict m) s;
  held =
      saved-HoldsAll sha256_hash now (entries l) (Local.save_manifest m.file_hash (to_dict m) s)
        named;
}

module _ (p : Primitives) (score : Dict PeerInfo → PeerInfo → ℕ) (int16 : Str → Option ℕ)
    (links : Str → Links) (now : ℕ) (m : FileManifest) (l : List Sealed)
    (same : zip m.chunks (map (λ (s : Sealed). s.bytes) l) ≡ pairs l)
    (named : AllNamed p.sha256_hash (entries l)) where
  replicated-IsStored :
      (w : World)
      → IsStored p.sha256_hash m l
          (replicate_chunks score int16 now 3 links m
            (map (λ (s : Sealed). s.bytes) l)
            (record w { store = Local.save_manifest m.file_hash (to_dict m) w.store })).0.store
  unfolding replicate_chunks
  replicated-IsStored w =
      let start = record w { store = Local.save_manifest m.file_hash (to_dict m) w.store } in
      let eq : (replicate_chunks score int16 now 3 links m (map (λ (s : Sealed). s.bytes) l)
            start).0.store
          ≡ saved now (entries l) start.store =
        ap (λ cs. (replicate_loop score int16 now 3 links cs start []).0.store) same
        ∙ (ap (λ (x : LocalStore × NodeState). x.0)
              (replicate_loop-save_all score int16 now 3 links (pairs l) start [])
            ∙ save_all-saved now l start.store start.node) in
      subst (IsStored p.sha256_hash m l) (sym eq)
        (IsStored-chunks_last p.sha256_hash now m l w.store named)

  pub store_upload-IsStored :
      (w : World)
      → IsStored p.sha256_hash m l
          (store_upload p score int16 links now m (map (λ (s : Sealed). s.bytes) l) w).0.store
  unfolding store_upload
  store_upload-IsStored w =
      let after = save_all now (pairs l) w.store w.node in
      let plain : IsStored p.sha256_hash m l (Local.save_manifest m.file_hash (to_dict m) after.0) =
        subst (λ x. IsStored p.sha256_hash m l (Local.save_manifest m.file_hash (to_dict m) x))
          (sym (save_all-saved now l w.store w.node))
          (IsStored-manifest_last p.sha256_hash now m l w.store named) in
      rw same (elim (Bool-cases (is_empty (get_alive_peers now 15 after.1))) [
        | inl alone ↦ rw alone plain
        | inr peers ↦ rw peers (replicated-IsStored (record w { store = after.0; node = after.1 }))
      ])
