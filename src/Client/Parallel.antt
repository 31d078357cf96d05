-- ===== src/Client/Parallel.antt =====
-- The order in which parallel requests finish does not show in their results.
use mathlib.Core.Option
use distri_store.Prelude.{
  ℕ, zero, suc, ◌+◌, ◌<◌, ◌≤◌, ◌≡◌, refl, sym, ap, ◌∙◌, true, inl, inr, Option, none, some, List,
  [], ◌∷◌, map, Str, Bytes, length, get_elem?, set, replicate, ltb, Bool-cases, Option-cases,
  lt→ltb, arith, ◌==◌,
}
use distri_store.Prelude.Count.{elem}
use distri_store.Client.Results.{
  get_elem?_ext, outside_of_none, inside_of_some, Agrees, store-Agrees, skip-Agrees, blank-Agrees,
}
use distri_store.Client.{urls_of, get_chunk, assign, fetch, gather, download_chunks_parallel}

module _ (get : Str → Option Str → Option Bytes) (urls : List Str) where
  -- The chunks requested one after the other.
  abbrev pub in_turn : ℕ → List Str → Option (List Bytes)
  in_turn k [] = some []
  in_turn k (h ∷ hs) = elim (get_chunk get urls k h) [
    | none ↦ none
    | some content ↦ elim (in_turn (suc k) hs) [ none ↦ none | some rest ↦ some (content ∷ rest) ]
  ]

  abbrev IsRefused : ℕ → List Str → Type 0
  IsRefused k hs =
      (i : ℕ) × ((h : Str) × (get_elem? hs i ≡ some h) × (get_chunk get urls (k + i) h ≡ none))

  abbrev AreServed : ℕ → List Str → List Bytes → Type 0
  AreServed k hs ds =
      (length ds ≡ length hs)
      × ((i : ℕ) (h : Str)
          → get_elem? hs i ≡ some h
          → (d : Bytes) × (get_elem? ds i ≡ some d) × (get_chunk get urls (k + i) h ≡ some d))

  served_cons :
      (k : ℕ) (h : Str) (hs : List Str) (d : Bytes) (rest : List Bytes)
      → get_chunk get urls k h ≡ some d
      → ((i : ℕ) (h' : Str)
          → get_elem? hs i ≡ some h'
          → (x : Bytes) × (get_elem? rest i ≡ some x)
            × (get_chunk get urls (suc k + i) h' ≡ some x))
      → (i : ℕ) (h' : Str) → get_elem? (h ∷ hs) i ≡ some h'
      → (x : Bytes) × (get_elem? (d ∷ rest) i ≡ some x) × (get_chunk get urls (k + i) h' ≡ some x)
  served_cons k h hs d rest got each zero h' f =
      let here : k + 0 ≡ k = omega arith in
      let same : h ≡ h' = cc in (d, refl, rw (here, sym same) got)
  served_cons k h hs d rest got each (suc i) h' f =
      let (x, at_i, served) = each i h' f in
      let shift : k + suc i ≡ suc k + i = omega arith in
      (x, at_i, ap (λ j. get_chunk get urls j h') shift ∙ served)

  unserved_lem : (k : ℕ) (hs : List Str) → in_turn k hs ≡ none → IsRefused k hs
  unserved_lem k [] e = absurd (cc)
  unserved_lem k (h ∷ hs) e = elim (Option-cases (get_chunk get urls k h)) [
    | inl refused ↦
        let here : k + 0 ≡ k = omega arith in
        (0, (h, refl, ap (λ i. get_chunk get urls i h) here ∙ refused))
    | inr (d, got) ↦ elim (Option-cases (in_turn (suc k) hs)) [
      | inl later ↦
          let (i, (h', here, refused)) = unserved_lem (suc k) hs later in
          let shift : k + suc i ≡ suc k + i = omega arith in
          (suc i, (h', here, ap (λ j. get_chunk get urls j h') shift ∙ refused))
      | inr (ds, gotten) ↦
          let step : in_turn k (h ∷ hs) ≡ some (d ∷ ds) = rw (in_turn, got, gotten) refl in
          absurd (cc)
    ]
  ]

  served_lem :
      (k : ℕ) (hs : List Str) (ds : List Bytes) → in_turn k hs ≡ some ds → AreServed k hs ds
  served_lem k [] [] e = (refl, λ i h f. absurd (cc))
  served_lem k [] (d ∷ ds) e = absurd (cc)
  served_lem k (h ∷ hs) ds e = elim (Option-cases (get_chunk get urls k h)) [
    | inl refused ↦ let step : in_turn k (h ∷ hs) ≡ none = rw (in_turn, refused) refl in absurd (cc)
    | inr (d, got) ↦ elim (Option-cases (in_turn (suc k) hs)) [
      | inl later ↦
          let step : in_turn k (h ∷ hs) ≡ none = rw (in_turn, got, later) refl in absurd (cc)
      | inr (rest, gotten) ↦
          let step : in_turn k (h ∷ hs) ≡ some (d ∷ rest) = rw (in_turn, got, gotten) refl in
          let whole : ds ≡ d ∷ rest = cc in
          let (size, each) = served_lem (suc k) hs rest gotten in
          rw whole (ap suc size, served_cons k h hs d rest got each)
    ]
  ]

  fetch_lem :
      (i : ℕ) (h : Str) (d : Bytes) (results : List (Option Bytes))
      → get_chunk get urls i h ≡ some d
      → i < length results
      → fetch get urls i h results ≡ some (set results i (some d))
  unfolding fetch assign
  fetch_lem i h d results got inside =
      rw (fetch, assign, got, lt→ltb i (length results) inside) refl

  fetch_refused :
      (i : ℕ) (h : Str) (results : List (Option Bytes))
      → get_chunk get urls i h ≡ none
      → fetch get urls i h results ≡ none
  unfolding fetch
  fetch_refused i h results refused = rw (fetch, refused) refl

  -- A request that fails and is among the tasks makes the whole download fail.
  gather_refused :
      (hs : List Str) (i : ℕ) (h : Str)
      → get_elem? hs i ≡ some h
      → get_chunk get urls i h ≡ none
      → (order : List ℕ) (results : List (Option Bytes)) → elem i order ≡ true
      → gather get urls hs order results ≡ none
  unfolding elem gather
  gather_refused hs i h here refused [] results e = absurd (cc)
  gather_refused hs i h here refused (j ∷ order) results e = elim (Bool-cases (j == i)) [
    | inl now ↦
        let same : j ≡ i = ground (arith, now) in
        let task : get_elem? hs j ≡ some h = rw same here in
        let raised : fetch get urls j h results ≡ none =
          fetch_refused j h results (rw same refused) in
        rw (gather, task, raised) refl
    | inr later ↦
        let rest : elem i order ≡ true = ground (arith, e, later) in
        elim (Option-cases (get_elem? hs j)) [
          | inl nothing ↦
              rw (gather, nothing) (gather_refused hs i h here refused order results rest)
          | inr (h', task) ↦ elim (Option-cases (fetch get urls j h' results)) [
            | inl raised ↦ rw (gather, task, raised) refl
            | inr (results', stored) ↦
                rw (gather, task, stored) (gather_refused hs i h here refused order results' rest)
          ]
        ]
  ]

  gather_served :
      (hs : List Str) (ds : List Bytes)
      → AreServed 0 hs ds
      → (order : List ℕ) (results : List (Option Bytes)) → Agrees order ds results
      → gather get urls hs order results ≡ some (map (λ (d : Bytes). some d) ds)
  unfolding gather elem
  gather_served hs ds (size, each) [] results (same_size, agree) =
      ap (λ (r : List (Option Bytes)). some r)
        (get_elem?_ext results (map (λ (d : Bytes). some d) ds) (λ i. agree i refl))
  gather_served hs ds (size, each) (j ∷ order) results agrees =
      elim (Option-cases (get_elem? hs j)) [
        | inl nothing ↦
            let outside : length ds ≤ j = omega (arith, size, outside_of_none hs j nothing) in
            rw (gather, nothing)
              (gather_served hs ds (size, each) order results
                (skip-Agrees j ds order results outside agrees))
        | inr (h, task) ↦
            let (d, at_j, got) = each j h task in
            let inside : j < length results = omega (arith, agrees.0, inside_of_some ds j d at_j) in
            let got_j : get_chunk get urls j h ≡ some d =
              ap (λ k. get_chunk get urls k h) (omega arith) ∙ got in
            let stored = fetch_lem j h d results got_j inside in
            rw (gather, task, stored)
              (gather_served hs ds (size, each) order (set results j (some d))
                (store-Agrees j d ds order results at_j agrees))
      ]

-- Whatever the order in which the requests finish, when each chunk has its task: the download
-- returns the chunks in the order of their hashes, as requests made one after the other give them,
-- and raises an exception when one of these does.
pub download_chunks_parallel_lem :
    (get : Str → Option Str → Option Bytes) (base_url : Str) (peer_urls : Option (List Str))
    (chunk_hashes : List Str) (order : List ℕ)
    → ((i : ℕ) → elem i order ≡ ltb i (length chunk_hashes))
    → download_chunks_parallel get base_url peer_urls order chunk_hashes
      ≡ Option.map
          (map (λ (d : Bytes). some d))
          (in_turn get (urls_of base_url peer_urls) 0 chunk_hashes)
unfolding download_chunks_parallel
download_chunks_parallel_lem get base_url peer_urls chunk_hashes order each =
    let urls = urls_of base_url peer_urls in
    let n = length chunk_hashes in
    let blank : List (Option Bytes) = replicate n none in
    elim (Option-cases (in_turn get urls 0 chunk_hashes)) [
      | inl failed ↦
          let (i, (h, task, refused)) = unserved_lem get urls 0 chunk_hashes failed in
          let refused_i : get_chunk get urls i h ≡ none =
            ap (λ k. get_chunk get urls k h) (omega arith) ∙ refused in
          rw failed (
            gather_refused get urls chunk_hashes i h task refused_i order blank
              (each i ∙ lt→ltb i n (inside_of_some chunk_hashes i h task)))
      | inr (ds, gotten) ↦
          let served = served_lem get urls 0 chunk_hashes ds gotten in
          rw gotten (
            gather_served get urls chunk_hashes ds served order blank
              (blank-Agrees chunk_hashes ds order each served.0))
    ]
