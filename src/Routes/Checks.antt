-- ===== src/Routes/Checks.antt =====
-- What is checked of a file before it is sent.
use mathlib.Core.Option
use mathlib.Core.Option.{some-injective}
use distri_store.Prelude.{
  ℕ, ◌≡◌, ◌⊎◌, refl, sym, ap, ◌∙◌, ◌&&◌, Option, none, some, inl, inr, [], Str, Bytes, Bool-cases,
  Option-cases,
}
use distri_store.Prelude.Dict.{Dict}
use distri_store.Manifest.{FileManifest, ManifestDict, is_empty, chunks_from_dicts, from_dict}
use distri_store.Crypto.{Result, ok, err, Primitives}
use distri_store.Chunker.{merge_chunks_to_disk}
use distri_store.Chunker.Integrity.{merge_chunks_to_disk_checks}
use distri_store.Local.{LocalStore, load_manifest}
use distri_store.Node.{PeerInfo}
use distri_store.Routes.{
  Swarm, HttpError, Response, sent, raised, FileResponse, load_or_fetch_manifest, gather_chunks,
}
use distri_store.Routes.Saved.{fill_root-kept}
use distri_store.Routes.Download.{
  any_encrypted, is_value_error, respond, serve_manifest, download_file,
}

pub Response-cases {ℓ} :
    {A : Type ℓ} (r : Response A) → ((a : A) × (r ≡ sent a)) ⊎ ((e : HttpError) × (r ≡ raised e))
Response-cases (sent a) = inl (a, refl)
Response-cases (raised e) = inr (e, refl)

sent-injective {ℓ} : {A : Type ℓ} {a b : A} → sent a ≡ sent b → a ≡ b
sent-injective e = cc

raised-ne-sent {ℓ} : {A : Type ℓ} {e : HttpError} {a : A} → raised e ≡ sent a → ⊥
raised-ne-sent h = cc

respond-sent :
    (m : FileManifest) (store : LocalStore) (merged : Option Bytes × Result {0} Unit)
    (r : FileResponse)
    → (respond m store merged).1 ≡ sent r
    → (merged.1 ≡ ok tt)
      × (record { filename = m.original_filename; body = elim merged.0 [ none ↦ [] | some b ↦ b ] }
          ≡ r)
respond-sent m store (file, ok _) r h = (refl, sent-injective h)
respond-sent m store (file, err e) r h = elim (Bool-cases (is_value_error e)) [
  | inl yes_error ↦ absurd (raised-ne-sent (rw yes_error at h))
  | inr other ↦ absurd (raised-ne-sent (rw other at h))
]

module _ (sha256_hash : Bytes → Str) where
  -- The file hash of a manifest is that of its dictionary.
  from_dict-file_hash :
      (d : ManifestDict) (m : FileManifest) (h : Str)
      → from_dict sha256_hash d ≡ some m
      → d.file_hash ≡ some h
      → m.file_hash ≡ h
  unfolding from_dict
  from_dict-file_hash d m h read named = elim (Option-cases d.original_filename) [
    | inl gone ↦ absurd (cc (rw (from_dict, gone) at read))
    | inr (name, e1) ↦ elim (Option-cases d.original_size) [
      | inl gone ↦ absurd (cc (rw (from_dict, e1, gone) at read))
      | inr (size, e2) ↦ elim (Option-cases (chunks_from_dicts (Option.get_or d.chunks []))) [
        | inl gone ↦ absurd (cc (rw (from_dict, e1, e2, named, gone) at read))
        | inr (cs, e3) ↦
            let same = some-injective _ _ (rw (from_dict, e1, e2, named, e3) at read) in
            ap (λ (x : FileManifest). x.file_hash) (sym same) ∙ (fill_root-kept sha256_hash _).2
      ]
    ]
  ]

module _ (p : Primitives) where
  serve-sent :
      (swarm : Swarm) (peers : Dict PeerInfo) (now : ℕ) (password : Str) (m : FileManifest)
      (store : LocalStore) (r : FileResponse)
      → (serve_manifest p swarm peers now password m store).1 ≡ sent r
      → p.sha256_hash r.body ≡ m.file_hash
  unfolding serve_manifest
  serve-sent swarm peers now password m store r h =
      let gathered = gather_chunks swarm peers now m.chunks store in
      elim (Response-cases gathered.1) [
        | inr (e, failed) ↦ absurd (raised-ne-sent (rw (serve_manifest, failed) at h))
        | inl (chunks, got) ↦ elim (Bool-cases (any_encrypted m.chunks && is_empty password)) [
          | inl locked ↦ absurd (raised-ne-sent (rw (serve_manifest, got, locked) at h))
          | inr open_file ↦
              let merged = merge_chunks_to_disk p m chunks password in
              let (done, same) =
                respond-sent m gathered.0 merged r (rw (serve_manifest, got, open_file) at h) in
              let (bytes, file, hashed) =
                merge_chunks_to_disk_checks p m chunks password merged.0
                  (ap (λ x. (merged.0, x)) done) in
              ap (λ (x : FileResponse). p.sha256_hash x.body) (sym same) ∙ (rw file hashed)
        ]
      ]

  -- When the manifest is stored locally, under the file hash that it names: a download that sends a
  -- file sends one with that hash, wherever its chunks come from.
  pub download_file_checks :
      (swarm : Swarm) (peers : Dict PeerInfo) (now : ℕ) (file_hash password : Str)
      (store : LocalStore) (d : ManifestDict) (r : FileResponse)
      → load_manifest file_hash store ≡ some d
      → d.file_hash ≡ some file_hash
      → (download_file p swarm peers now file_hash password store).1 ≡ sent r
      → p.sha256_hash r.body ≡ file_hash
  unfolding download_file load_or_fetch_manifest
  download_file_checks swarm peers now file_hash password store d r found named h =
      elim (Option-cases (from_dict p.sha256_hash d)) [
        | inl bad ↦
            absurd (raised-ne-sent (rw (download_file, load_or_fetch_manifest, found, bad) at h))
        | inr (m, read) ↦
            serve-sent swarm peers now password m _ r
              (rw (download_file, load_or_fetch_manifest, found, read) at h)
            ∙ from_dict-file_hash p.sha256_hash d m file_hash read named
      ]
