-- ===== src/Replicate.antt =====
-- backend/strategies/sliding_window.py: `SlidingWindowReplicationEngine`. What a peer makes of the
-- transfer is a function: `none` when there is no connection and none can be made, else the
-- statistics or the error that are recorded for it.
pub mod Copies
use distri_store.Prelude.{ℕ, Bool, Option, none, some, List, [], ◌∷◌, Str, Bytes, take}
use distri_store.Prelude.Dict
use distri_store.Manifest.{ChunkInfo, FileManifest}
use distri_store.Chunker.{zip}
use distri_store.Local.{LocalStore, save_chunk}
use distri_store.Node.{NodeState, register_chunk, get_alive_peers}

-- The local copies, made first.
unfoldable pub save_all :
    ℕ → List (ChunkInfo × Bytes) → LocalStore → NodeState → LocalStore × NodeState
save_all now [] store s = (store, s)
save_all now ((info, body) ∷ chunks) store s =
    save_all now chunks (save_chunk now info.chunk_hash body store)
      (register_chunk info.chunk_hash info.chunk_hash s)

-- The loop over the peers, which passes over those without a connection.
unfoldable pub send_to_peers {ℓ} : {R : Type ℓ} → (Str → Option R) → List Str → List (Str × R)
send_to_peers transfer [] = []
send_to_peers transfer (peer_id ∷ peer_ids) =
    let results = send_to_peers transfer peer_ids in
    elim (transfer peer_id) [ none ↦ results | some r ↦ (peer_id, r) ∷ results ]

unfoldable pub replicate_file {ℓ} :
    {R : Type ℓ}
    → ℕ
    → ℕ
    → (Str → Option R)
    → FileManifest
    → List Bytes
    → LocalStore
    → NodeState
    → (LocalStore × NodeState) × List (Str × R)
unfolding save_all send_to_peers
replicate_file now k transfer manifest chunk_data_list store s =
    let saved = save_all now (zip manifest.chunks chunk_data_list) store s in
    (saved, send_to_peers transfer (take k (Dict.keys (get_alive_peers now 15 saved.1))))
