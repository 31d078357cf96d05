-- ===== src/Routes/Fetch.antt =====
-- Chunks that are local or fetched, and kept.
use distri_store.Prelude.{
  ℕ, false, ◌≡◌, refl, sym, ap, ◌∙◌, Option, none, some, inl, inr, List, [], ◌∷◌, map, Str, Bytes,
  str_eq, str_eq_iff, Bool-cases, Option-cases,
}
use distri_store.Prelude.Dict.{Dict}
use distri_store.Chunker.{Sealed}
use distri_store.Local.{LocalStore, save_chunk, load_chunk}
use distri_store.Local.Contents.{HoldsAll, load_chunk-save_chunk}
use distri_store.Node.{PeerInfo}
use distri_store.Pipeline.Order.{entries, infos}
use distri_store.Routes.{Swarm, sent, ask, load_or_fetch_chunk, gather_chunks}

module _ (swarm : Swarm) (peers : Dict PeerInfo) where
  abbrev pub fetched : Str → Option Bytes
  fetched h = ask (λ peer. swarm.peer_chunk peer h) peers

  -- The local copy, or else that of the first peer that answers.
  abbrev pub answer : LocalStore → Str → Option Bytes
  answer store h = elim (load_chunk h store) [ some body ↦ some body | none ↦ fetched h ]

  pub answer-found :
      (store : LocalStore) (h : Str) (b : Bytes)
      → load_chunk h store ≡ some b
      → answer store h ≡ some b
  answer-found store h b e = rw (answer, e) refl

  pub load_or_fetch_chunk-answer :
      (now : ℕ) (h : Str) (store : LocalStore)
      → (load_or_fetch_chunk swarm peers now h store).1 ≡ answer store h
  unfolding load_or_fetch_chunk
  load_or_fetch_chunk-answer now h store = elim (Option-cases (load_chunk h store)) [
    | inr (b, e) ↦ rw (load_or_fetch_chunk, answer, e) refl
    | inl gone ↦ elim (Option-cases (fetched h)) [
      | inl silent ↦ rw (load_or_fetch_chunk, answer, gone, silent) refl
      | inr (b, got) ↦ rw (load_or_fetch_chunk, answer, gone, got) refl
    ]
  ]

  -- What was local stays, and a chunk that was found is local afterwards.
  pub load_or_fetch_chunk-kept :
      (now : ℕ) (k : Str) (store : LocalStore) (h : Str) (b : Bytes)
      → load_chunk h store ≡ some b
      → load_chunk h (load_or_fetch_chunk swarm peers now k store).0 ≡ some b
  unfolding load_or_fetch_chunk
  load_or_fetch_chunk-kept now k store h b found = elim (Option-cases (load_chunk k store)) [
    | inr (c, e) ↦ rw (load_or_fetch_chunk, e) found
    | inl gone ↦ elim (Option-cases (fetched k)) [
      | inl silent ↦ rw (load_or_fetch_chunk, gone, silent) found
      | inr (c, got) ↦
          let other : str_eq k h ≡ false = elim (Bool-cases (str_eq k h)) [
            | inr other ↦ other
            | inl same ↦ absurd (
                cc (
                  sym found
                  ∙ (ap (λ i. load_chunk i store) (sym ((str_eq_iff k h).0 same)) ∙ gone)))
          ] in
          rw (load_or_fetch_chunk, gone, got)
            (load_chunk-save_chunk now k c store h ∙ rw other found)
    ]
  ]

  pub load_or_fetch_chunk-local :
      (now : ℕ) (h : Str) (store : LocalStore) (b : Bytes)
      → answer store h ≡ some b
      → load_chunk h (load_or_fetch_chunk swarm peers now h store).0 ≡ some b
  unfolding load_or_fetch_chunk
  load_or_fetch_chunk-local now h store b found = elim (Option-cases (load_chunk h store)) [
    | inr (c, e) ↦ rw (load_or_fetch_chunk, e) (e ∙ (rw (answer, e) at found))
    | inl gone ↦ elim (Option-cases (fetched h)) [
      | inl silent ↦ absurd (cc (rw (answer, gone, silent) at found))
      | inr (c, got) ↦
          let same : some c ≡ some b = rw (answer, gone, got) at found in
          rw (load_or_fetch_chunk, gone, got)
            (load_chunk-save_chunk now h c store h ∙ (rw ((str_eq_iff h h).1 refl) same))
    ]
  ]

  -- Keeping a fetched chunk changes no answer.
  answer-load_or_fetch_chunk :
      (now : ℕ) (k : Str) (store : LocalStore) (h : Str) (b : Bytes)
      → answer store h ≡ some b
      → answer (load_or_fetch_chunk swarm peers now k store).0 h ≡ some b
  unfolding load_or_fetch_chunk
  answer-load_or_fetch_chunk now k store h b found = elim (Bool-cases (str_eq k h)) [
    | inl same ↦
        let key : k ≡ h = (str_eq_iff k h).0 same in
        answer-found _ h b (
          ap (λ i. load_chunk h (load_or_fetch_chunk swarm peers now i store).0) key
          ∙ load_or_fetch_chunk-local now h store b found)
    | inr other ↦ elim (Option-cases (load_chunk k store)) [
      | inr (c, e) ↦ rw (load_or_fetch_chunk, e) found
      | inl gone ↦ elim (Option-cases (fetched k)) [
        | inl silent ↦ rw (load_or_fetch_chunk, gone, silent) found
        | inr (c, got) ↦
            let after : load_chunk h (save_chunk now k c store) ≡ load_chunk h store =
              load_chunk-save_chunk now k c store h ∙ rw other refl in
            rw (load_or_fetch_chunk, gone, got) (rw (answer, after) found)
      ]
    ]
  ]

  -- When every chunk is answered, all are gathered, in the order of the manifest.
  pub gather_chunks_lem :
      (now : ℕ) (l : List Sealed) (store : LocalStore)
      → HoldsAll (answer store) (entries l)
      → (gather_chunks swarm peers now (infos l) store).1 ≡ sent (map (λ (s : Sealed). s.bytes) l)
  unfolding gather_chunks
  gather_chunks_lem now [] store h = refl
  gather_chunks_lem now (s ∷ l) store h =
      let found = load_or_fetch_chunk-answer now s.info.chunk_hash store ∙ h.0 in
      let all : HoldsAll (answer (load_or_fetch_chunk swarm peers now s.info.chunk_hash store).0)
          (entries l) =
        still now s.info.chunk_hash l store h.1 in
      rw (gather_chunks, found, gather_chunks_lem now l _ all) refl
    where
      still :
          (now : ℕ) (k : Str) (l : List Sealed) (store : LocalStore)
          → HoldsAll (answer store) (entries l)
          → HoldsAll (answer (load_or_fetch_chunk swarm peers now k store).0) (entries l)
      still now k [] store h = tt
      still now k (s ∷ l) store h = (
        answer-load_or_fetch_chunk now k store s.info.chunk_hash s.bytes h.0,
        still now k l store h.1,
      )
