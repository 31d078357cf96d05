-- ===== src/Node/Peers.antt =====
-- The peer table: what an added peer changes, and which peers count as alive.
use mathlib.Core.Path.{subst}
use mathlib.Core.Option.{some-injective}
use distri_store.Prelude.{
  ℕ, ◌<◌, ◌≡◌, refl, sym, ap, ◌∙◌, true, Option, none, some, List, [], ◌∷◌, Str, str_eq, str_eq_iff,
  inl, inr, Bool-cases, Option-cases, arith, if◌then◌else◌,
}
use distri_store.Prelude.Dict
use distri_store.Prelude.Dict.{
  Dict, IsDistinct, only_if, get-put, get-remove, get-keep_if, put-IsDistinct, remove-IsDistinct,
}
use distri_store.Store.{PeerRow}
use distri_store.Node.{
  PeerInfo, is_alive, NodeState, peer_of_row, load_rows, rows_of, load_peers_from_db, refresh,
  merged_peer, add_peer, remove_peer, get_peer, get_alive_peers,
}

-- The table is a dictionary by the peers' own ids.
pub record NodeOk (s : NodeState) : Type 0 where
  pub distinct : IsDistinct s.peers
  pub keyed : (k : Str) (p : PeerInfo) → Dict.get s.peers k ≡ some p → p.node_id ≡ k

pub node_id-merged_peer :
    (now : ℕ) (peer : PeerInfo) (s : NodeState)
    → NodeOk s
    → (merged_peer now peer (Dict.get s.peers peer.node_id)).node_id ≡ peer.node_id
unfolding merged_peer refresh
node_id-merged_peer now peer s ok = elim (Option-cases (Dict.get s.peers peer.node_id)) [
  | inl new ↦ rw new refl
  | inr (p, known) ↦ rw known (ok.keyed peer.node_id p known)
]

last_seen-merged_peer :
    (now : ℕ) (peer : PeerInfo) (known : Option PeerInfo)
    → (merged_peer now peer known).last_seen ≡ now
unfolding merged_peer refresh
last_seen-merged_peer now peer none = refl
last_seen-merged_peer now peer (some p) = refl

put_keyed :
    (d : Dict PeerInfo) (p : PeerInfo)
    → ((k : Str) (q : PeerInfo) → Dict.get d k ≡ some q → q.node_id ≡ k)
    → (k : Str) (q : PeerInfo) → Dict.get (Dict.put d p.node_id p) k ≡ some q
    → q.node_id ≡ k
put_keyed d p keyed k q e = elim (Bool-cases (str_eq p.node_id k)) [
  | inl same ↦
      let found : p ≡ q = some-injective _ _ (rw (get-put, same) at e) in
      ap (λ (x : PeerInfo). x.node_id) (sym found) ∙ (str_eq_iff p.node_id k).0 same
  | inr other ↦ keyed k q (rw (get-put, other) at e)
]

pub add_peer-NodeOk :
    (now : ℕ) (peer : PeerInfo) (s : NodeState) → NodeOk s → NodeOk (add_peer now peer s)
unfolding add_peer
add_peer-NodeOk now peer s ok =
    let kept = merged_peer now peer (Dict.get s.peers peer.node_id) in
    let same = node_id-merged_peer now peer s ok in
    record {
      distinct = put-IsDistinct s.peers peer.node_id kept ok.distinct;
      keyed =
          subst
            (λ (i : Str).
              (k : Str) (q : PeerInfo)
              → Dict.get (Dict.put s.peers i kept) k ≡ some q
              → q.node_id ≡ k)
            same (put_keyed s.peers kept ok.keyed);
    }

pub remove_peer-NodeOk : (k : Str) (s : NodeState) → NodeOk s → NodeOk (remove_peer k s).0
unfolding remove_peer
remove_peer-NodeOk i s ok = record {
  distinct = remove-IsDistinct s.peers i ok.distinct;
  keyed = λ k q e. ok.keyed k q (ground (arith, get-remove s.peers i k));
}

load_rows_ok :
    (self : Str) (rows : List PeerRow) (d : Dict PeerInfo)
    → IsDistinct d
    → ((k : Str) (q : PeerInfo) → Dict.get d k ≡ some q → q.node_id ≡ k)
    → IsDistinct (load_rows self rows d)
      × ((k : Str) (q : PeerInfo) → Dict.get (load_rows self rows d) k ≡ some q → q.node_id ≡ k)
unfolding load_rows peer_of_row
load_rows_ok self [] d h k = (h, k)
load_rows_ok self (r ∷ rows) d h k = elim (Bool-cases (str_eq r.node_id self)) [
  | inl own ↦ rw own (load_rows_ok self rows d h k)
  | inr other ↦ rw other (
      load_rows_ok self rows (Dict.put d r.node_id (peer_of_row r))
        (put-IsDistinct d r.node_id (peer_of_row r) h) (put_keyed d (peer_of_row r) k))
]

pub load-NodeOk : (s : NodeState) → NodeOk s → NodeOk (load_peers_from_db s)
unfolding load_peers_from_db
load-NodeOk s ok =
    let loaded = load_rows_ok s.node_id (rows_of s.db) s.peers ok.distinct ok.keyed in
    record { distinct = loaded.0; keyed = loaded.1 }

-- For a table without double keys: a report makes its peer alive for every timeout above 0, with
-- the fields that `add_peer` merges, and leaves every other peer as alive as it was.
pub get_alive_peers-add_peer :
    (now timeout : ℕ) (peer : PeerInfo) (s : NodeState) (k : Str)
    → NodeOk s
    → 0 < timeout
    → Dict.get (get_alive_peers now timeout (add_peer now peer s)) k ≡ (
        if str_eq peer.node_id k
        then some (merged_peer now peer (get_peer peer.node_id s))
        else Dict.get (get_alive_peers now timeout s) k)
unfolding get_alive_peers add_peer get_peer is_alive
get_alive_peers-add_peer now timeout peer s k ok h =
    let kept = merged_peer now peer (Dict.get s.peers peer.node_id) in
    let fresh : is_alive now timeout kept ≡ true =
      ground (arith, last_seen-merged_peer now peer (Dict.get s.peers peer.node_id)) in
    let before = get-keep_if (is_alive now timeout) s.peers k ok.distinct in
    let after =
      get-keep_if (is_alive now timeout) (Dict.put s.peers peer.node_id kept) k
        (put-IsDistinct s.peers peer.node_id kept ok.distinct) in
    elim (Bool-cases (str_eq peer.node_id k)) [
      | inl same ↦ rw same (
          let here : Dict.get (Dict.put s.peers peer.node_id kept) k ≡ some kept =
            get-put s.peers peer.node_id kept k ∙ rw same refl in
          after ∙ (ap (only_if (is_alive now timeout)) here ∙ rw fresh refl))
      | inr other ↦ rw other (
          let there : Dict.get (Dict.put s.peers peer.node_id kept) k ≡ Dict.get s.peers k =
            get-put s.peers peer.node_id kept k ∙ rw other refl in
          after ∙ (ap (only_if (is_alive now timeout)) there ∙ sym before))
    ]
