-- ===== src/Dht/Holders.antt =====
-- The table of holders when a peer is gone.
use mathlib.Core.Path.{subst}
use distri_store.Prelude.{
  ◌≡◌, refl, sym, ap, ◌∙◌, ◌⊎◌, false, ◌&&◌, not, none, List, [], ◌∷◌, Str, str_eq, str_eq_iff, inl,
  inr, Bool-cases, arith, if◌then◌else◌,
}
use distri_store.Prelude.Dict
use distri_store.Prelude.Dict.{Dict, IsDistinct}
use distri_store.Dht.{str_elem, str_remove, get_holders, remove_peer_from_all}

-- The peer stands at most once in the list.
abbrev pub IsOnce : Str → List Str → Type 0
IsOnce p [] = Unit
IsOnce p (j ∷ l) = ((str_eq j p ≡ false) ⊎ (str_elem p l ≡ false)) × IsOnce p l

abbrev pub AllOnce : Str → Dict (List Str) → Type 0
AllOnce p [] = Unit
AllOnce p ((k, l) ∷ table) = IsOnce p l × AllOnce p table

elem_other :
    (p q : Str) (l : List Str)
    → str_elem p l ≡ false
    → str_elem q l ≡ (str_elem q l && not (str_eq q p))
unfolding str_elem
elem_other p q l h = elim (Bool-cases (str_eq q p)) [
  | inr other ↦ rw other (ground arith)
  | inl same ↦
      let gone : str_elem q l ≡ false =
        subst (λ i. str_elem i l ≡ false) (sym ((str_eq_iff q p).0 same)) h in
      rw gone refl
]

str_elem-str_remove :
    (p q : Str) (l : List Str)
    → IsOnce p l
    → str_elem q (str_remove p l) ≡ (str_elem q l && not (str_eq q p))
unfolding str_elem str_remove
str_elem-str_remove p q [] h = refl
str_elem-str_remove p q (j ∷ l) h = ground (
  arith,
  h.0,
  str_eq_iff j p,
  str_eq_iff j q,
  str_eq_iff q p,
  str_elem-str_remove p q l h.1,
  elem_other p q l,
)

-- What the loop does to the holders of one chunk.
abbrev without : Str → List Str → List Str
without p l = if str_elem p l then str_remove p l else l

str_elem-without :
    (p q : Str) (l : List Str)
    → IsOnce p l
    → str_elem q (without p l) ≡ (str_elem q l && not (str_eq q p))
str_elem-without p q l h = elim (Bool-cases (str_elem p l)) [
  | inl held ↦ rw held (str_elem-str_remove p q l h)
  | inr absent ↦ rw absent (elem_other p q l absent)
]

get_holders-remove :
    (p : Str) (table : Dict (List Str)) (k : Str)
    → get_holders k (remove_peer_from_all p table).0 ≡ without p (get_holders k table)
unfolding remove_peer_from_all get_holders Dict.get str_elem
get_holders-remove p [] k = refl
get_holders-remove p ((j, l) ∷ table) k = ground (arith, get_holders-remove p table k)

affected_lem :
    (p : Str) (table : Dict (List Str)) (k : Str)
    → IsDistinct table
    → str_elem k (remove_peer_from_all p table).1 ≡ str_elem p (get_holders k table)
unfolding remove_peer_from_all get_holders Dict.get str_elem
affected_lem p [] k h = refl
affected_lem p ((j, l) ∷ table) k h = elim (Bool-cases (str_eq j k)) [
  | inr other ↦ ground (arith, affected_lem p table k h.1)
  | inl same ↦
      let absent : Dict.get table k ≡ none =
        subst (λ i. Dict.get table i ≡ none) ((str_eq_iff j k).0 same) h.0 in
      ground (arith, affected_lem p table k h.1)
]

get_holders-IsOnce :
    (p : Str) (table : Dict (List Str)) (k : Str) → AllOnce p table → IsOnce p (get_holders k table)
unfolding get_holders Dict.get
get_holders-IsOnce p [] k h = tt
get_holders-IsOnce p ((j, l) ∷ table) k h = elim (Bool-cases (str_eq j k)) [
  | inl same ↦
      let held : get_holders k ((j, l) ∷ table) ≡ l = rw (same, get_holders) refl in
      subst (IsOnce p) (sym held) h.0
  | inr other ↦
      let later : get_holders k ((j, l) ∷ table) ≡ get_holders k table =
        rw (other, get_holders) refl in
      subst (IsOnce p) (sym later) (get_holders-IsOnce p table k h.1)
]

-- For a table without double keys whose lists hold the peer at most once: removing the peer takes
-- it and no other peer from the holders of every chunk, and the chunks that are returned are
-- exactly those that it held.
pub remove_peer_from_all_lem :
    (peer_id : Str) (table : Dict (List Str)) (chunk_hash q : Str)
    → IsDistinct table
    → AllOnce peer_id table
    → let (rest, affected) = remove_peer_from_all peer_id table in
      (str_elem q (get_holders chunk_hash rest)
        ≡ (str_elem q (get_holders chunk_hash table) && not (str_eq q peer_id)))
      × (str_elem chunk_hash affected ≡ str_elem peer_id (get_holders chunk_hash table))
remove_peer_from_all_lem p table k q h once = (
  ap (str_elem q) (get_holders-remove p table k)
      ∙ str_elem-without p q (get_holders k table) (get_holders-IsOnce p table k once),
  affected_lem p table k h,
)
