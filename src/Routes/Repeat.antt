-- ===== src/Routes/Repeat.antt =====
-- A download that is asked for again.
use distri_store.Prelude.{
  ℕ, ◌≡◌, refl, sym, ap, ◌∙◌, Bool, true, false, ◌&&◌, Option, some, inl, inr, List, [], ◌∷◌, Str,
  Bytes, Bool-cases, Option-cases,
}
use distri_store.Prelude.Dict.{Dict}
use distri_store.Manifest.{ChunkInfo, FileManifest, ManifestDict, is_empty, from_dict}
use distri_store.Crypto.{Result, ok, err, Primitives}
use distri_store.Chunker.{merge_chunks_to_disk}
use distri_store.Local.{LocalStore, load_manifest}
use distri_store.Store
use distri_store.Node.{PeerInfo}
use distri_store.Routes.{
  Swarm, HttpError, Response, sent, raised, bad_request, password_required, FileResponse,
  load_or_fetch_manifest, load_or_fetch_chunk, gather_chunks,
}
use distri_store.Routes.Download.{
  any_encrypted, is_value_error, respond, serve_manifest, download_file,
}
use distri_store.Routes.Checks.{Response-cases}
use distri_store.Routes.Kept.{gather_chunks-db, gather_chunks-AllLocal, gather_chunks-of_local}

-- The download came to the merge, which returned or raised a `ValueError`.
abbrev pub is_refusal : HttpError → Bool
is_refusal (bad_request e) = true
is_refusal _ = false

abbrev pub is_settled : Response FileResponse → Bool
is_settled (sent r) = true
is_settled (raised e) = is_refusal e

-- The exception of a response that has one.
exception : {A : Type 0} → Response A → HttpError
exception (sent a) = password_required
exception (raised e) = e

gather_chunks-unsettled :
    (swarm : Swarm) (peers : Dict PeerInfo) (now : ℕ) (infos : List ChunkInfo) (store : LocalStore)
    (e : HttpError)
    → (gather_chunks swarm peers now infos store).1 ≡ raised e
    → is_refusal e ≡ false
unfolding gather_chunks exception
gather_chunks-unsettled swarm peers now [] store e h = absurd (cc h)
gather_chunks-unsettled swarm peers now (info ∷ infos) store e h =
    elim (Option-cases (load_or_fetch_chunk swarm peers now info.chunk_hash store).1) [
      | inl gone ↦ ap (λ r. is_refusal (exception r)) (sym (rw (gather_chunks, gone) at h))
      | inr (c, got) ↦
          let loaded = (load_or_fetch_chunk swarm peers now info.chunk_hash store).0 in
          elim (Response-cases (gather_chunks swarm peers now infos loaded).1) [
            | inl (rest, found) ↦ absurd (cc (rw (gather_chunks, got, found) at h))
            | inr (x, failed) ↦
                ap (λ r. is_refusal (exception r)) (sym (rw (gather_chunks, got, failed) at h))
                ∙ gather_chunks-unsettled swarm peers now infos loaded x failed
          ]
    ]

respond-settled :
    (m : FileManifest) (store : LocalStore) (merged : Option Bytes × Result {0} Unit)
    → is_settled (respond m store merged).1 ≡ true
    → (respond m store merged).0 ≡ store
respond-settled m store (file, ok _) h = refl
respond-settled m store (file, err e) h = elim (Bool-cases (is_value_error e)) [
  | inl caught ↦ rw caught refl
  | inr other ↦ absurd (cc (rw other at h))
]

module _ (p : Primitives) where
  serve_manifest-again :
      (swarm swarm' : Swarm) (peers peers' : Dict PeerInfo) (now now' : ℕ) (password : Str)
      (m : FileManifest) (store : LocalStore)
      → is_settled (serve_manifest p swarm peers now password m store).1 ≡ true
      → let (after, response) = serve_manifest p swarm peers now password m store in
        (serve_manifest p swarm' peers' now' password m after ≡ (after, response))
        × (after.db ≡ store.db)
  unfolding serve_manifest
  serve_manifest-again swarm swarm' peers peers' now now' password m store h =
      let gathered = gather_chunks swarm peers now m.chunks store in
      elim (Response-cases gathered.1) [
        | inr (e, failed) ↦
            let unsettled = gather_chunks-unsettled swarm peers now m.chunks store e failed in
            absurd (cc (sym unsettled ∙ (rw (serve_manifest, failed) at h)))
        | inl (chunks, got) ↦ elim (Bool-cases (any_encrypted m.chunks && is_empty password)) [
          | inl locked ↦ absurd (cc (rw (serve_manifest, got, locked) at h))
          | inr unlocked ↦
              let merged = merge_chunks_to_disk p m chunks password in
              let settled = rw (serve_manifest, got, unlocked) at h in
              let kept : (respond m gathered.0 merged).0 ≡ gathered.0 =
                respond-settled m gathered.0 merged settled in
              let again =
                gather_chunks-of_local swarm' peers' now' gathered.0 m.chunks chunks
                  (gather_chunks-AllLocal swarm peers now m.chunks store chunks got) in
              let one : serve_manifest p swarm peers now password m store
                  ≡ respond m gathered.0 merged =
                rw (serve_manifest, got, unlocked) refl in
              let second = gather_chunks swarm' peers' now' m.chunks gathered.0 in
              let chunks_again : second.1 ≡ sent chunks = ap (λ x. x.1) again in
              let same_store : second.0 ≡ gathered.0 = ap (λ x. x.0) again in
              let two : serve_manifest p swarm' peers' now' password m gathered.0
                  ≡ respond m gathered.0 merged =
                rw (serve_manifest, chunks_again, unlocked)
                  (ap (λ (s : LocalStore). respond m s merged) same_store) in
              let left = ap (λ x. x.0) one ∙ kept in
              (
                ap (λ s. serve_manifest p swarm' peers' now' password m s) left ∙ (two ∙ sym one),
                ap (λ (s : LocalStore). s.db) left
                    ∙ gather_chunks-db swarm peers now m.chunks store,
              )
        ]
      ]

  local_manifest :
      (swarm : Swarm) (peers : Dict PeerInfo) (file_hash : Str) (store : LocalStore)
      (d : ManifestDict)
      → load_manifest file_hash store ≡ some d
      → load_or_fetch_manifest swarm peers file_hash store ≡ (store, some d)
  unfolding load_or_fetch_manifest
  local_manifest swarm peers file_hash store d found = rw (load_or_fetch_manifest, found) refl

  download_file-serve_manifest :
      (swarm : Swarm) (peers : Dict PeerInfo) (now : ℕ) (file_hash password : Str)
      (store : LocalStore) (d : ManifestDict) (m : FileManifest)
      → load_manifest file_hash store ≡ some d
      → from_dict p.sha256_hash d ≡ some m
      → download_file p swarm peers now file_hash password store
        ≡ serve_manifest p swarm peers now password m store
  unfolding download_file
  download_file-serve_manifest swarm peers now file_hash password store d m found read =
      let local = local_manifest swarm peers file_hash store d found in
      let got : (load_or_fetch_manifest swarm peers file_hash store).1 ≡ some d =
        ap (λ x. x.1) local in
      let same : (load_or_fetch_manifest swarm peers file_hash store).0 ≡ store =
        ap (λ x. x.0) local in
      rw (download_file, got, read, same) refl

  -- When the manifest is stored locally: a download that came to the merge, and sent the file or
  -- refused it, gives the same response when it is repeated with the same password, without
  -- changing the store, whatever the peers answer by then. So bytes that a peer made up are served
  -- from the store, and fail the download, from then on.
  pub download_file_repeats :
      (swarm swarm' : Swarm) (peers peers' : Dict PeerInfo) (now now' : ℕ)
      (file_hash password : Str) (store : LocalStore) (d : ManifestDict)
      → load_manifest file_hash store ≡ some d
      → is_settled (download_file p swarm peers now file_hash password store).1 ≡ true
      → let (after, response) = download_file p swarm peers now file_hash password store in
        download_file p swarm' peers' now' file_hash password after ≡ (after, response)
  unfolding download_file load_or_fetch_manifest load_manifest
  download_file_repeats swarm swarm' peers peers' now now' file_hash password store d found h =
      elim (Option-cases (from_dict p.sha256_hash d)) [
        | inl bad ↦ absurd (cc (rw (download_file, load_or_fetch_manifest, found, bad) at h))
        | inr (m, read) ↦
            let one : download_file p swarm peers now file_hash password store
                ≡ serve_manifest p swarm peers now password m store =
              download_file-serve_manifest swarm peers now file_hash password store d m found
                read in
            let left = (serve_manifest p swarm peers now password m store).0 in
            let (again, same_db) =
              serve_manifest-again swarm swarm' peers peers' now now' password m store
                (sym (ap (λ x. is_settled x.1) one) ∙ h) in
            let found_again : load_manifest file_hash left ≡ some d =
              ap (Store.get_manifest file_hash) same_db ∙ found in
            let two : download_file p swarm' peers' now' file_hash password left
                ≡ serve_manifest p swarm' peers' now' password m left =
              download_file-serve_manifest swarm' peers' now' file_hash password left d m
                found_again read in
            ap (λ s. download_file p swarm' peers' now' file_hash password s) (ap (λ x. x.0) one)
            ∙ (two ∙ (again ∙ sym one))
      ]
