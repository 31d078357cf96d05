-- ===== src/Replication/Healing.antt =====
-- The repair of the table of holders.
use mathlib.Core.Path.{subst}
use mathlib.Core.Option.{some-injective}
use distri_store.Prelude.{
  ℕ, ◌≡◌, refl, ap, ◌∙◌, Bool, true, false, ◌&&◌, ◌||◌, Option, none, some, inl, inr, List, [], ◌∷◌,
  ◌++◌, Str, str_eq, str_eq_iff, length, ltb, Bool-cases, arith, if◌then◌else◌,
}
use distri_store.Prelude.Dict
use distri_store.Prelude.Dict.{Dict, IsDistinct}
use distri_store.Local.{LocalStore}
use distri_store.Node.{PeerInfo}
use distri_store.Dht.{str_elem, get_holders}
use distri_store.Replication.{Links, only, drop_dead, heal_chunk, heal_all}
use distri_store.Replication.Copies.{get_holders-assign_chunk}

pub str_elem-only :
    (test : Str → Bool) (q : Str) (l : List Str)
    → str_elem q (only test l) ≡ (str_elem q l && test q)
unfolding str_elem only
str_elem-only test q [] = refl
str_elem-only test q (i ∷ l) = elim (Bool-cases (str_eq i q)) [
  | inr other ↦ ground (arith, other, str_elem-only test q l)
  | inl same ↦
      let agree : test i ≡ test q = ap test ((str_eq_iff i q).0 same) in
      ground (arith, same, agree, str_elem-only test q l)
]

pub str_elem-append :
    (q : Str) (l m : List Str) → str_elem q (l ++ m) ≡ (str_elem q l || str_elem q m)
unfolding str_elem
str_elem-append q [] m = refl
str_elem-append q (i ∷ l) m = ground (arith, str_elem-append q l m)

module _ (int16 : Str → Option ℕ) (links : Str → Links) (now k : ℕ) (alive : Str → Bool)
    (alive_peers : Dict PeerInfo) (store : LocalStore) where
  -- The holders of a chunk after the repair.
  abbrev pub healed : Str → List Str → List Str
  healed chunk_hash holders =
      if ltb (length (only alive holders)) k
      then heal_chunk int16 links now k alive_peers store chunk_hash (only alive holders)
      else holders

  abbrev pub repaired : Dict (List Str) → Dict (List Str)
  repaired table =
      let (rest, under) = drop_dead int16 links now k alive table in
      heal_all int16 links now k alive_peers store under rest

  abbrev short : List Str → Bool
  short l = ltb (length (only alive l)) k

  abbrev dropped : Dict (List Str) → Dict (List Str) × List (Str × List Str)
  dropped table = drop_dead int16 links now k alive table

  absent_under :
      (table : Dict (List Str)) (h : Str)
      → Dict.get table h ≡ none
      → Dict.get (dropped table).1 h ≡ none
  unfolding drop_dead Dict.get
  absent_under [] h e = refl
  absent_under ((j, l) ∷ table) h e = elim (Bool-cases (str_eq j h)) [
    | inl same ↦ absurd (cc (rw same at e))
    | inr other ↦ elim (Bool-cases (short l)) [
      | inl few ↦ rw (few, Dict.get, other) (absent_under table h (rw other at e))
      | inr many ↦ rw many (absent_under table h (rw other at e))
    ]
  ]

  dropped-IsDistinct : (table : Dict (List Str)) → IsDistinct table → IsDistinct (dropped table).1
  unfolding drop_dead
  dropped-IsDistinct [] d = tt
  dropped-IsDistinct ((j, l) ∷ table) d = elim (Bool-cases (short l)) [
    | inl few ↦ rw few (absent_under table j d.0, dropped-IsDistinct table d.1)
    | inr many ↦ rw many (dropped-IsDistinct table d.1)
  ]

  under_few :
      (table : Dict (List Str)) (h : Str) (l : List Str)
      → Dict.get table h ≡ some l
      → short l ≡ true
      → Dict.get (dropped table).1 h ≡ some (only alive l)
  unfolding drop_dead Dict.get
  under_few [] h l e few = absurd (cc e)
  under_few ((j, m) ∷ table) h l e few = elim (Bool-cases (str_eq j h)) [
    | inl same ↦
        let eq : m ≡ l = some-injective _ _ (rw same at e) in
        let few_m : short m ≡ true = ap short eq ∙ few in
        rw (few_m, Dict.get, same) (ap (λ (x : List Str). some (only alive x)) eq)
    | inr other ↦
        let later = under_few table h l (rw other at e) few in
        elim (Bool-cases (short m)) [
          | inl few_m ↦ rw (few_m, Dict.get, other) later
          | inr many ↦ rw many later
        ]
  ]

  under_many :
      (table : Dict (List Str)) (h : Str) (l : List Str)
      → IsDistinct table
      → Dict.get table h ≡ some l
      → short l ≡ false
      → (Dict.get (dropped table).1 h ≡ none) × (get_holders h (dropped table).0 ≡ l)
  unfolding drop_dead Dict.get get_holders
  under_many [] h l d e many = absurd (cc e)
  under_many ((j, m) ∷ table) h l d e many = elim (Bool-cases (str_eq j h)) [
    | inl same ↦
        let eq : m ≡ l = some-injective _ _ (rw same at e) in
        let many_m : short m ≡ false = ap short eq ∙ many in
        let gone : Dict.get table h ≡ none =
          subst (λ i. Dict.get table i ≡ none) ((str_eq_iff j h).0 same) d.0 in
        rw many_m (absent_under table h gone, rw (get_holders, Dict.get, same) eq)
    | inr other ↦
        let later = under_many table h l d.1 (rw other at e) many in
        elim (Bool-cases (short m)) [
          | inl few_m ↦
              rw (few_m, Dict.get, other) (later.0, rw (get_holders, Dict.get, other) later.1)
          | inr many_m ↦ rw many_m (later.0, rw (get_holders, Dict.get, other) later.1)
        ]
  ]

  abbrev healing : List (Str × List Str) → Dict (List Str) → Dict (List Str)
  healing under table = heal_all int16 links now k alive_peers store under table

  heal_untouched :
      (under : Dict (List Str)) (table : Dict (List Str)) (h : Str)
      → Dict.get under h ≡ none
      → get_holders h (healing under table) ≡ get_holders h table
  unfolding heal_all Dict.get
  heal_untouched [] table h e = refl
  heal_untouched ((j, l) ∷ under) table h e = elim (Bool-cases (str_eq j h)) [
    | inl same ↦ absurd (cc (rw same at e))
    | inr other ↦
        heal_untouched under _ h (rw other at e)
        ∙ (get_holders-assign_chunk j _ table h ∙ rw other refl)
  ]

  heal_found :
      (under : Dict (List Str)) (table : Dict (List Str)) (h : Str) (l : List Str)
      → IsDistinct under
      → Dict.get under h ≡ some l
      → get_holders h (healing under table) ≡ heal_chunk int16 links now k alive_peers store h l
  unfolding heal_all Dict.get
  heal_found [] table h l d e = absurd (cc e)
  heal_found ((j, m) ∷ under) table h l d e = elim (Bool-cases (str_eq j h)) [
    | inl same ↦
        let key : j ≡ h = (str_eq_iff j h).0 same in
        let eq : m ≡ l = some-injective _ _ (rw same at e) in
        let gone : Dict.get under h ≡ none = subst (λ i. Dict.get under i ≡ none) key d.0 in
        heal_untouched under _ h gone
        ∙ (get_holders-assign_chunk j _ table h
            ∙ (rw same (
                ap (λ (i : Str). heal_chunk int16 links now k alive_peers store i m) key
                ∙ ap (heal_chunk int16 links now k alive_peers store h) eq)))
    | inr other ↦ heal_found under _ h l d.1 (rw other at e)
  ]

  -- The table is repaired chunk by chunk.
  pub get_holders-repaired :
      (table : Dict (List Str)) (h : Str) (l : List Str)
      → IsDistinct table
      → Dict.get table h ≡ some l
      → get_holders h (repaired table) ≡ healed h l
  get_holders-repaired table h l d e = elim (Bool-cases (short l)) [
    | inl few ↦ rw few (
        heal_found (dropped table).1 (dropped table).0 h (only alive l) (dropped-IsDistinct table d)
          (under_few table h l e few))
    | inr many ↦
        let kept = under_many table h l d e many in
        rw many (heal_untouched (dropped table).1 (dropped table).0 h kept.0 ∙ kept.1)
  ]
