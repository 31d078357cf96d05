-- ===== src/Routes/Kept.antt =====
-- The store after the chunks of a download were gathered.
use mathlib.Core.Path.{subst}
use distri_store.Prelude.{
  ℕ, ◌≡◌, refl, sym, ap, ◌∙◌, Option, some, inl, inr, List, [], ◌∷◌, Str, Bytes, Option-cases,
}
use distri_store.Prelude.Dict.{Dict}
use distri_store.Manifest.{ChunkInfo}
use distri_store.Local.{LocalStore, save_chunk, load_chunk}
use distri_store.Node.{PeerInfo}
use distri_store.Routes.{Swarm, sent, load_or_fetch_chunk, gather_chunks}
use distri_store.Routes.Checks.{Response-cases}
use distri_store.Routes.Fetch.{
  fetched, load_or_fetch_chunk-answer, load_or_fetch_chunk-kept, load_or_fetch_chunk-local,
}

-- The chunks are all local.
abbrev AllLocal : LocalStore → List ChunkInfo → List Bytes → Type 0
AllLocal store [] [] = Unit
AllLocal store (info ∷ infos) (b ∷ bs) =
    (load_chunk info.chunk_hash store ≡ some b) × AllLocal store infos bs
AllLocal store _ _ = ⊥

sent-injective {ℓ} : {A : Type ℓ} {a b : A} → sent a ≡ sent b → a ≡ b
sent-injective e = cc

module _ (swarm : Swarm) (peers : Dict PeerInfo) (now : ℕ) where
  abbrev loads : Str → LocalStore → LocalStore × Option Bytes
  loads h store = load_or_fetch_chunk swarm peers now h store

  gather_chunks-kept :
      (infos : List ChunkInfo) (store : LocalStore) (h : Str) (b : Bytes)
      → load_chunk h store ≡ some b
      → load_chunk h (gather_chunks swarm peers now infos store).0 ≡ some b
  unfolding gather_chunks
  gather_chunks-kept [] store h b e = e
  gather_chunks-kept (info ∷ infos) store h b e =
      let here = load_or_fetch_chunk-kept swarm peers now info.chunk_hash store h b e in
      elim (Option-cases (loads info.chunk_hash store).1) [
        | inl gone ↦ rw (gather_chunks, gone) here
        | inr (c, got) ↦
            rw (gather_chunks, got)
              (gather_chunks-kept infos (loads info.chunk_hash store).0 h b here)
      ]

  pub gather_chunks-AllLocal :
      (infos : List ChunkInfo) (store : LocalStore) (chunks : List Bytes)
      → (gather_chunks swarm peers now infos store).1 ≡ sent chunks
      → AllLocal (gather_chunks swarm peers now infos store).0 infos chunks
  unfolding gather_chunks
  gather_chunks-AllLocal [] store [] e = tt
  gather_chunks-AllLocal [] store (b ∷ bs) e = absurd (cc (sent-injective e))
  gather_chunks-AllLocal (info ∷ infos) store chunks e =
      elim (Option-cases (loads info.chunk_hash store).1) [
        | inl gone ↦ absurd (cc (rw (gather_chunks, gone) at e))
        | inr (c, got) ↦
            let loaded = (loads info.chunk_hash store).0 in
            elim (Response-cases (gather_chunks swarm peers now infos loaded).1) [
              | inr (x, failed) ↦ absurd (cc (rw (gather_chunks, got, failed) at e))
              | inl (rest, found) ↦
                  let same : c ∷ rest ≡ chunks =
                    sent-injective (rw (gather_chunks, got, found) at e) in
                  let local = load_or_fetch_chunk-local swarm peers now info.chunk_hash store c (
                    sym (load_or_fetch_chunk-answer swarm peers now info.chunk_hash store) ∙ got) in
                  let after = (gather_chunks swarm peers now infos loaded).0 in
                  let all : AllLocal after (info ∷ infos) (c ∷ rest) = (
                    gather_chunks-kept infos loaded info.chunk_hash c local,
                    gather_chunks-AllLocal infos loaded rest found,
                  ) in
                  rw (gather_chunks, got) (subst (AllLocal after (info ∷ infos)) same all)
            ]
      ]

  load_or_fetch_chunk-db : (h : Str) (store : LocalStore) → (loads h store).0.db ≡ store.db
  unfolding load_or_fetch_chunk save_chunk
  load_or_fetch_chunk-db h store = elim (Option-cases (load_chunk h store)) [
    | inr (b, e) ↦ rw (load_or_fetch_chunk, e) refl
    | inl gone ↦ elim (Option-cases (fetched swarm peers h)) [
      | inl silent ↦ rw (load_or_fetch_chunk, gone, silent) refl
      | inr (b, got) ↦ rw (load_or_fetch_chunk, gone, got) refl
    ]
  ]

  pub gather_chunks-db :
      (infos : List ChunkInfo) (store : LocalStore)
      → (gather_chunks swarm peers now infos store).0.db ≡ store.db
  unfolding gather_chunks
  gather_chunks-db [] store = refl
  gather_chunks-db (info ∷ infos) store =
      let here = load_or_fetch_chunk-db info.chunk_hash store in
      elim (Option-cases (loads info.chunk_hash store).1) [
        | inl gone ↦ rw (gather_chunks, gone) here
        | inr (c, got) ↦
            rw (gather_chunks, got) (gather_chunks-db infos (loads info.chunk_hash store).0 ∙ here)
      ]

  -- Chunks that are all local are gathered as they are, and nothing is fetched.
  pub gather_chunks-of_local :
      (store : LocalStore) (infos : List ChunkInfo) (chunks : List Bytes)
      → AllLocal store infos chunks
      → gather_chunks swarm peers now infos store ≡ (store, sent chunks)
  unfolding gather_chunks load_or_fetch_chunk
  gather_chunks-of_local store [] [] all = refl
  gather_chunks-of_local store [] (b ∷ bs) all = elim all [ ]
  gather_chunks-of_local store (info ∷ infos) [] all = elim all [ ]
  gather_chunks-of_local store (info ∷ infos) (b ∷ bs) all =
      let loaded : loads info.chunk_hash store ≡ (store, some b) =
        rw (load_or_fetch_chunk, all.0) refl in
      let found : (loads info.chunk_hash store).1 ≡ some b = ap (λ x. x.1) loaded in
      let same : (loads info.chunk_hash store).0 ≡ store = ap (λ x. x.0) loaded in
      let rest = gather_chunks-of_local store infos bs all.1 in
      let after : (gather_chunks swarm peers now infos store).0 ≡ store = ap (λ x. x.0) rest in
      let got : (gather_chunks swarm peers now infos store).1 ≡ sent bs = ap (λ x. x.1) rest in
      rw (gather_chunks, found, same, after, got) refl
