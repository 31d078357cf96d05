-- ===== src/Node/Restart.antt =====
-- The database mirrors the peer table, so that a restarted node knows the peers again.
use mathlib.Core.Path.{subst}
use mathlib.Core.Option.{some-injective}
use distri_store.Prelude.{
  ℕ, ◌≡◌, refl, sym, ap, ◌∙◌, true, false, Option, none, some, List, [], Str, str_eq, inl, inr,
  Bool-cases, arith,
}
use distri_store.Prelude.Dict
use distri_store.Prelude.Dict.{
  Dict, IsDistinct, get-put, get-remove, put-IsDistinct, remove-IsDistinct,
}
use distri_store.Store.{PeerRow, NodeDatabase, insert_or_replace, upsert_peer, get_all_peers}
use distri_store.Store.Manifests.{get-insert_or_replace}
use distri_store.Node.{
  PeerInfo, NodeState, init, set_database, peer_of_row, rows_of, load_peers_from_db, merged_peer,
  row_of_peer, persist, add_peer, remove_peer, get_peer, register_chunk, remove_chunk,
  update_routing,
}
use distri_store.Node.Peers.{
  NodeOk, node_id-merged_peer, add_peer-NodeOk, remove_peer-NodeOk, load-NodeOk,
}
use distri_store.Node.Rows.{remove-IsNamed, load_rows_lem, put-IsNamed, rows, IsNamed, loaded}

-- A peer table in order, and a database that has a row for each of its peers.
record IsMirrored (s : NodeState) : Type 0 where
  ok : NodeOk s
  db : NodeDatabase
  attached : s.db ≡ some db
  distinct : IsDistinct db.peers
  named : IsNamed db.peers
  row :
      (k : Str) (p : PeerInfo)
      → Dict.get s.peers k ≡ some p
      → Dict.get db.peers k ≡ some (row_of_peer p)

-- What happens to a node while it runs.
pub data Step : NodeState → NodeState → Type 0 where
  report : (now : ℕ) (peer : PeerInfo) (s : NodeState) → Step s (add_peer now peer s)
  lose : (k : Str) (s : NodeState) → Step s (remove_peer k s).0
  store :
      (chunk_hash file_path : Str) (s : NodeState) → Step s (register_chunk chunk_hash file_path s)
  discard : (chunk_hash : Str) (s : NodeState) → Step s (remove_chunk chunk_hash s).0
  route :
      (chunk_hash : Str) (peer_ids : List Str) (s : NodeState)
      → Step s (update_routing chunk_hash peer_ids s)

pub data Reach (s : NodeState) : NodeState → Type 0 where
  here : Reach s s
  next : {t u : NodeState} → Reach s t → Step t u → Reach s u

mirror_put :
    (d : Dict PeerInfo) (t : Dict PeerRow) (i : Str) (kept : PeerInfo)
    → kept.node_id ≡ i
    → ((k : Str) (p : PeerInfo) → Dict.get d k ≡ some p → Dict.get t k ≡ some (row_of_peer p))
    → (k : Str) (p : PeerInfo) → Dict.get (Dict.put d i kept) k ≡ some p
    → Dict.get (insert_or_replace t kept.node_id (row_of_peer kept)) k ≡ some (row_of_peer p)
mirror_put d t i kept same mirrored k p e =
    let table = get-insert_or_replace t kept.node_id (row_of_peer kept) k in
    elim (Bool-cases (str_eq i k)) [
      | inl hit ↦
          let found : kept ≡ p = some-injective _ _ (rw (get-put, hit) at e) in
          let hit_row : str_eq kept.node_id k ≡ true =
            subst (λ j. str_eq j k ≡ true) (sym same) hit in
          table ∙ (rw hit_row (ap (λ (x : PeerInfo). some (row_of_peer x)) found))
      | inr miss ↦
          let miss_row : str_eq kept.node_id k ≡ false =
            subst (λ j. str_eq j k ≡ false) (sym same) miss in
          table ∙ (rw miss_row (mirrored k p (rw (get-put, miss) at e)))
    ]

unchanged : (s t : NodeState) → t.peers ≡ s.peers → t.db ≡ s.db → IsMirrored s → IsMirrored t
unchanged s t ep ed m = record {
  ok = record {
    distinct = subst IsDistinct (sym ep) m.ok.distinct;
    keyed = λ k p e. m.ok.keyed k p (ap (λ (d : Dict PeerInfo). Dict.get d k) (sym ep) ∙ e);
  };
  db = m.db;
  attached = ed ∙ m.attached;
  distinct = m.distinct;
  named = m.named;
  row = λ k p e. m.row k p (ap (λ (d : Dict PeerInfo). Dict.get d k) (sym ep) ∙ e);
}

add_peer-IsMirrored :
    (now : ℕ) (peer : PeerInfo) (s : NodeState) → IsMirrored s → IsMirrored (add_peer now peer s)
unfolding add_peer persist upsert_peer row_of_peer
add_peer-IsMirrored now peer s m =
    let kept = merged_peer now peer (Dict.get s.peers peer.node_id) in
    let same : kept.node_id ≡ peer.node_id = node_id-merged_peer now peer s m.ok in
    record {
      ok = add_peer-NodeOk now peer s m.ok;
      db = upsert_peer (row_of_peer kept) m.db;
      attached = ap (persist kept) m.attached;
      distinct =
          put-IsDistinct (Dict.remove m.db.peers kept.node_id) kept.node_id (row_of_peer kept)
            (remove-IsDistinct m.db.peers kept.node_id m.distinct);
      named =
          put-IsNamed (Dict.remove m.db.peers kept.node_id) (row_of_peer kept)
            (remove-IsNamed m.db.peers kept.node_id m.named);
      row = mirror_put s.peers m.db.peers peer.node_id kept same m.row;
    }

Step-IsMirrored : {s t : NodeState} → Step s t → IsMirrored s → IsMirrored t
unfolding remove_peer register_chunk remove_chunk update_routing
Step-IsMirrored (report now peer s) m = add_peer-IsMirrored now peer s m
Step-IsMirrored (lose k s) m = record {
  ok = remove_peer-NodeOk k s m.ok;
  db = m.db;
  attached = m.attached;
  distinct = m.distinct;
  named = m.named;
  row = λ j p e. m.row j p (ground (arith, get-remove s.peers k j));
}
Step-IsMirrored (store h f s) m = unchanged s _ refl refl m
Step-IsMirrored (discard h s) m = unchanged s _ refl refl m
Step-IsMirrored (route h l s) m = unchanged s _ refl refl m

-- A node that starts on a database.
unfoldable pub boot : ℕ → Str → Str → NodeDatabase → NodeState
unfolding init set_database load_peers_from_db
boot now node_id name db = load_peers_from_db (set_database db (init now node_id name))

get-boot :
    (now : ℕ) (self name : Str) (db : NodeDatabase) (k : Str)
    → IsDistinct db.peers
    → IsNamed db.peers
    → Dict.get (boot now self name db).peers k ≡ loaded self (Dict.get db.peers k) none
unfolding boot rows_of rows get_all_peers Dict.get
get-boot now self name db k h n = load_rows_lem self db.peers [] k h n

loaded_row :
    (self : Str) (o : Option PeerRow) (p : PeerInfo)
    → loaded self o none ≡ some p
    → o ≡ some (row_of_peer p)
unfolding row_of_peer peer_of_row
loaded_row self none p e = absurd (cc)
loaded_row self (some r) p e = elim (Bool-cases (str_eq r.node_id self)) [
  | inl own ↦ absurd (cc (rw own at e))
  | inr other ↦ ap (λ (x : PeerInfo). some (row_of_peer x)) (some-injective _ _ (rw other at e))
]

boot-NodeOk : (now : ℕ) (self name : Str) (db : NodeDatabase) → NodeOk (boot now self name db)
unfolding boot init set_database Dict.get
boot-NodeOk now self name db =
    load-NodeOk (set_database db (init now self name))
      (record { distinct = tt; keyed = λ k p e. absurd (cc) })

boot-IsMirrored :
    (now : ℕ) (self name : Str) (db : NodeDatabase)
    → IsDistinct db.peers
    → IsNamed db.peers
    → IsMirrored (boot now self name db)
boot-IsMirrored now self name db h n = record {
  ok = boot-NodeOk now self name db;
  db = db;
  attached = unfold boot in refl;
  distinct = h;
  named = n;
  row =
      λ k p e. loaded_row self (Dict.get db.peers k) p (sym (get-boot now self name db k h n) ∙ e);
}

Reach-IsMirrored : {s t : NodeState} → Reach s t → IsMirrored s → IsMirrored t
Reach-IsMirrored here m = m
Reach-IsMirrored (next r st) m = Step-IsMirrored st (Reach-IsMirrored r m)

-- A node that starts on a database whose rows stand under their own ids, and does any operations
-- in any order, has a database from which a node that starts later under the same id knows every
-- peer of its table again, with the address, name, score and time that it had; the other fields
-- are 0.
pub Reach-boot_recovers :
    (now later : ℕ) (self name : Str) (db : NodeDatabase) {s : NodeState} (k : Str) {p : PeerInfo}
    → IsDistinct db.peers
    → IsNamed db.peers
    → Reach (boot now self name db) s
    → get_peer k s ≡ some p
    → str_eq k self ≡ false
    → (saved : NodeDatabase) × (s.db ≡ some saved)
      × (get_peer k (boot later self name saved) ≡ some (peer_of_row (row_of_peer p)))
unfolding get_peer row_of_peer
Reach-boot_recovers now later self name db {s} k {p} h n r e other =
    let m = Reach-IsMirrored r (boot-IsMirrored now self name db h n) in
    let own : str_eq p.node_id self ≡ false =
      subst (λ i. str_eq i self ≡ false) (sym (m.ok.keyed k p e)) other in
    (
      m.db,
      m.attached,
      get-boot later self name m.db k m.distinct m.named ∙ (rw (m.row k p e) (rw own refl)),
    )
