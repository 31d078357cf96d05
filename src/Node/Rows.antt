-- ===== src/Node/Rows.antt =====
-- The peer table that is loaded from rows.
use mathlib.Core.Path.{subst}
use distri_store.Prelude.{
  ◌≡◌, refl, sym, ◌∙◌, Option, none, some, List, [], ◌∷◌, Str, str_eq, str_eq_iff, inl, inr,
  Bool-cases, if◌then◌else◌,
}
use distri_store.Prelude.Dict
use distri_store.Prelude.Dict.{
  Dict, IsDistinct, get-put, get-remove, put-IsDistinct, remove-IsDistinct,
}
use distri_store.Store.{PeerRow, get_all_peers}
use distri_store.Node.{PeerInfo, peer_of_row, load_rows}

-- Every row stands under the id of its peer.
abbrev pub IsNamed : Dict PeerRow → Type 0
IsNamed [] = Unit
IsNamed ((k, r) ∷ d) = (r.node_id ≡ k) × IsNamed d

-- What a key holds after its row, if any, was loaded over an old value.
abbrev pub loaded : Str → Option PeerRow → Option PeerInfo → Option PeerInfo
loaded self none old = old
loaded self (some r) old = if str_eq r.node_id self then old else some (peer_of_row r)

unfoldable pub rows : Dict PeerRow → List PeerRow
unfolding get_all_peers
rows d = get_all_peers (record { peers = d; manifests = [] })

-- The step of the loop for one row.
load_row :
    (self : Str) (r : PeerRow) (d : Dict PeerRow) (t : Dict PeerInfo) (k : Str)
    → Dict.get d r.node_id ≡ none
    → loaded self
        (Dict.get d k)
        (Dict.get (if str_eq r.node_id self then t else Dict.put t r.node_id (peer_of_row r)) k)
      ≡ loaded self (if str_eq r.node_id k then some r else Dict.get d k) (Dict.get t k)
load_row self r d t k h = elim (Bool-cases (str_eq r.node_id self)) [
  | inl own ↦ elim (Bool-cases (str_eq r.node_id k)) [
    | inl same ↦
        let absent : Dict.get d k ≡ none =
          subst (λ i. Dict.get d i ≡ none) ((str_eq_iff r.node_id k).0 same) h in
        rw (own, same, absent) (rw own refl)
    | inr miss ↦ rw (own, miss) refl
  ]
  | inr other ↦ elim (Bool-cases (str_eq r.node_id k)) [
    | inl same ↦
        let absent : Dict.get d k ≡ none =
          subst (λ i. Dict.get d i ≡ none) ((str_eq_iff r.node_id k).0 same) h in
        rw (other, same, absent, get-put, same) (rw other refl)
    | inr miss ↦ rw (other, miss, get-put, miss) refl
  ]
]

pub load_rows_lem :
    (self : Str) (d : Dict PeerRow) (t : Dict PeerInfo) (k : Str)
    → IsDistinct d
    → IsNamed d
    → Dict.get (load_rows self (rows d) t) k ≡ loaded self (Dict.get d k) (Dict.get t k)
unfolding load_rows rows Dict.get get_all_peers
load_rows_lem self [] t k h n = refl
load_rows_lem self ((j, r) ∷ d) t k h n =
    let absent : Dict.get d r.node_id ≡ none = subst (λ i. Dict.get d i ≡ none) (sym n.0) h.0 in
    let step : loaded self (Dict.get d k)
          (Dict.get (if str_eq r.node_id self then t else Dict.put t r.node_id (peer_of_row r)) k)
        ≡ loaded self (if str_eq j k then some r else Dict.get d k) (Dict.get t k) =
      subst
        (λ i.
          loaded self (Dict.get d k)
            (Dict.get (if str_eq r.node_id self then t else Dict.put t r.node_id (peer_of_row r)) k)
          ≡ loaded self (if str_eq i k then some r else Dict.get d k) (Dict.get t k))
        n.0 (load_row self r d t k absent) in
    load_rows_lem self d (if str_eq r.node_id self then t else Dict.put t r.node_id (peer_of_row r))
      k h.1 n.1
    ∙ step

pub put-IsNamed : (d : Dict PeerRow) (r : PeerRow) → IsNamed d → IsNamed (Dict.put d r.node_id r)
unfolding Dict.put
put-IsNamed [] r n = (refl, tt)
put-IsNamed ((j, q) ∷ d) r n = elim (Bool-cases (str_eq j r.node_id)) [
  | inl same ↦ rw same (sym ((str_eq_iff j r.node_id).0 same), n.1)
  | inr other ↦ rw other (n.0, put-IsNamed d r n.1)
]

pub remove-IsNamed : (d : Dict PeerRow) (k : Str) → IsNamed d → IsNamed (Dict.remove d k)
unfolding Dict.remove
remove-IsNamed [] k n = tt
remove-IsNamed ((j, q) ∷ d) k n = elim (Bool-cases (str_eq j k)) [
  | inl same ↦ rw same (remove-IsNamed d k n.1)
  | inr other ↦ rw other (n.0, remove-IsNamed d k n.1)
]
