-- ===== src/Replication.antt =====
-- backend/strategies/replication.py, selector.py and backend/advanced/self_healing.py: which peers
-- get a chunk, and the repair of the table of holders. The scores of selector.py are floats that
-- are only compared: `score peers peer` is the place of a score in their order. What the
-- connections do while a chunk is sent is given by `links`, as functions of the peer.
pub mod Targets
pub mod Copies
pub mod Healing
pub mod Repair
mod Tests
use distri_store.Prelude.{
  ℕ, ◌+◌, ◌-◌, ◌*◌, Bool, true, false, not, Option, none, some, List, [], ◌∷◌, ◌++◌, map, Str,
  Bytes, length, take, leb, ltb, if◌then◌else◌,
}
use distri_store.Prelude.Dict
use distri_store.Prelude.Dict.{Dict}
use distri_store.Prelude.Sort.{sort_by}
use distri_store.Manifest.{ChunkInfo, FileManifest, is_empty}
use distri_store.Chunker.{zip}
use distri_store.Local.{LocalStore, save_chunk, load_chunk}
use distri_store.Node.{PeerInfo, NodeState, get_peer, get_alive_peers, register_chunk}
use distri_store.Dht.{str_elem, assign_chunk, find_closest_peers}

-- The connection manager: who is connected, whether a connection can be made to an address, and
-- whether a message can be sent to a peer.
pub record Links : Type 0 where
  pub connected : Str → Bool
  pub connects : Str → ℕ → Bool
  pub delivers : Str → Bool

-- The objects that the strategies share.
pub record World : Type 0 where
  pub store : LocalStore
  pub node : NodeState
  pub routing : Dict (List Str)

pub record Outcome : Type 0 where
  pub replicated_to : List Str
  pub total_copies : Option ℕ

abbrev pub better : (PeerInfo → ℕ) → Str × PeerInfo → Str × PeerInfo → Bool
better score a b = leb (score b.1) (score a.1)

-- `combined`, with those of the ids that are not in it yet.
unfoldable pub add_missing : List Str → List Str → List Str
add_missing combined [] = combined
add_missing combined (pid ∷ pids) =
    add_missing (if str_elem pid combined then combined else combined ++ pid ∷ []) pids

-- The links are given for each chunk, so that a connection opened for one shows in those of the
-- next. What connecting writes into the table of peers is left out.
unfoldable pub send_chunk_to_peer : Links → NodeState → Str → Bool
send_chunk_to_peer links s peer_id =
    if links.connected peer_id then links.delivers peer_id else elim (get_peer peer_id s) [
      | none ↦ false
      | some peer ↦ if links.connects peer.ip peer.tcp_port then links.delivers peer_id else false
    ]

-- The peers of a list that a test passes.
unfoldable pub only : (Str → Bool) → List Str → List Str
only test [] = []
only test (pid ∷ pids) = let rest = only test pids in if test pid then pid ∷ rest else rest

-- To a new target: over the connection that there is, or a new one to the alive peer.
unfoldable pub send_to_target : Links → Dict PeerInfo → Str → Bool
send_to_target links alive_peers peer_id =
    if links.connected peer_id
    then links.delivers peer_id
    else elim (Dict.get alive_peers peer_id) [
      | none ↦ false
      | some peer ↦ if links.connects peer.ip peer.tcp_port then links.delivers peer_id else false
    ]

module _ (score : Dict PeerInfo → PeerInfo → ℕ) where
  -- The ids, the highest score first.
  unfoldable pub score_peers : Dict PeerInfo → List Str
  score_peers peers = map (λ e. e.0) (sort_by (better (score peers)) peers)

  unfoldable pub select_best_peers : ℕ → NodeState → ℕ → List Str
  unfolding score_peers
  select_best_peers now s k = take k (score_peers (get_alive_peers now 15 s))

  module _ (int16 : Str → Option ℕ) (now k : ℕ) where
    unfoldable pub select_targets : NodeState → Str → List Str
    unfolding score_peers add_missing
    select_targets s chunk_hash =
        let peers = get_alive_peers now 15 s in
        let heuristic_top = take (k * 2) (score_peers peers) in
        let xor_top = map (λ e. e.0) (find_closest_peers int16 chunk_hash (Dict.keys peers) k) in
        if is_empty peers then [] else take k (add_missing (add_missing [] xor_top) heuristic_top)

    module _ (links : Str → Links) where
      -- One turn of the loop over the chunks.
      unfoldable pub replicate_chunk : ChunkInfo × Bytes → World → World × Outcome
      unfolding select_targets send_chunk_to_peer only
      replicate_chunk (info, body) w =
          let node = register_chunk info.chunk_hash info.chunk_hash w.node in
          let saved = record w {
            store = save_chunk now info.chunk_hash body w.store;
            node = node;
          } in
          let target_peers = select_targets node info.chunk_hash in
          let replicated_to =
            only (send_chunk_to_peer (links info.chunk_hash) node) (take k target_peers) in
          if is_empty target_peers
          then (saved, record { replicated_to = []; total_copies = none })
          else (
            record saved {
              routing = assign_chunk info.chunk_hash (node.node_id ∷ replicated_to) w.routing;
            },
            record {
              replicated_to = replicated_to;
              total_copies = some (1 + length replicated_to);
            },
          )

      unfoldable pub replicate_loop :
          List (ChunkInfo × Bytes) → World → Dict Outcome → World × Dict Outcome
      unfolding replicate_chunk
      replicate_loop [] w results = (w, results)
      replicate_loop (c ∷ chunks) w results =
          let (after, outcome) = replicate_chunk c w in
          replicate_loop chunks after (Dict.put results c.0.chunk_hash outcome)

      unfoldable pub replicate_chunks : FileManifest → List Bytes → World → World × Dict Outcome
      unfolding replicate_loop
      replicate_chunks manifest chunk_data_list w =
          replicate_loop (zip manifest.chunks chunk_data_list) w []

module _ (int16 : Str → Option ℕ) (links : Str → Links) (now k : ℕ) where
  -- The first loop: the chunks with fewer than `k` holders that are alive, and the table in which
  -- only these holders are left.
  unfoldable pub drop_dead :
      (Str → Bool) → Dict (List Str) → Dict (List Str) × List (Str × List Str)
  unfolding only
  drop_dead alive [] = ([], [])
  drop_dead alive ((chunk_hash, holders) ∷ table) =
      let (rest, under) = drop_dead alive table in
      let alive_holders = only alive holders in
      if ltb (length alive_holders) k
      then ((chunk_hash, alive_holders) ∷ rest, (chunk_hash, alive_holders) ∷ under)
      else ((chunk_hash, holders) ∷ rest, under)

  -- The holders of one chunk after the second loop.
  unfoldable pub heal_chunk : Dict PeerInfo → LocalStore → Str → List Str → List Str
  unfolding send_to_target only
  heal_chunk alive_peers store chunk_hash alive_holders =
      let candidates = only (λ pid. not (str_elem pid alive_holders)) (Dict.keys alive_peers) in
      let closest = find_closest_peers int16 chunk_hash candidates (k - length alive_holders) in
      let new_targets = map (λ e. e.0) closest in
      elim (load_chunk chunk_hash store) [
        | none ↦ alive_holders
        | some chunk_data ↦
            alive_holders ++ only (send_to_target (links chunk_hash) alive_peers) new_targets
      ]

  unfoldable pub heal_all :
      Dict PeerInfo → LocalStore → List (Str × List Str) → Dict (List Str) → Dict (List Str)
  unfolding heal_chunk
  heal_all alive_peers store [] table = table
  heal_all alive_peers store ((chunk_hash, alive_holders) ∷ under) table =
      heal_all alive_peers store under
        (assign_chunk chunk_hash (heal_chunk alive_peers store chunk_hash alive_holders) table)

  unfoldable pub check_and_heal : World → World
  unfolding drop_dead heal_all
  check_and_heal w =
      let alive_peers = get_alive_peers now 15 w.node in
      let alive : Str → Bool = λ h. str_elem h (w.node.node_id ∷ Dict.keys alive_peers) in
      let (table, under) = drop_dead alive w.routing in
      record w { routing = heal_all alive_peers w.store under table }
