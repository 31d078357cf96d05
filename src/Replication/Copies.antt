-- ===== src/Replication/Copies.antt =====
-- What `replicate_chunks` leaves in the store, in the table of holders and in its report.
use distri_store.Prelude.{
  ℕ, ◌+◌, ◌≤◌, ◌≡◌, refl, sym, ap, ◌∙◌, ◌⊎◌, Bool, true, false, Option, none, some, inl, inr, List,
  [], ◌∷◌, Str, Bytes, str_eq, str_eq_iff, length, length-take, take, Bool-cases, arith,
  if◌then◌else◌,
}
use distri_store.Prelude.Dict
use distri_store.Prelude.Dict.{Dict, get-put}
use distri_store.Manifest.{ChunkInfo, FileManifest, is_empty}
use distri_store.Chunker.{zip}
use distri_store.Local.{LocalStore, save_chunk, load_chunk}
use distri_store.Node.{PeerInfo, NodeState, get_chunk_path, register_chunk, get_alive_peers}
use distri_store.Dht.{get_holders, assign_chunk}
use distri_store.Replicate.{save_all}
use distri_store.Replicate.Copies.{AllContent, Listed, save_all-IsHeld}
use distri_store.Replication.{
  Links, World, Outcome, only, send_chunk_to_peer, select_targets, replicate_chunk, replicate_loop,
  replicate_chunks,
}

length-only : (test : Str → Bool) (l : List Str) → length (only test l) ≤ length l
unfolding only
length-only test [] = omega arith
length-only test (i ∷ l) = ground (arith, length-only test l)

pub get_holders-assign_chunk :
    (k : Str) (l : List Str) (table : Dict (List Str)) (h : Str)
    → get_holders h (assign_chunk k l table) ≡ (if str_eq k h then l else get_holders h table)
unfolding get_holders assign_chunk
get_holders-assign_chunk k l table h =
    let found = get-put table k l h in
    elim (Bool-cases (str_eq k h)) [
      | inl same ↦ rw (get_holders, found, same) refl
      | inr other ↦ rw (get_holders, found, other) refl
    ]

-- The report on a chunk: at most `k` peers; and if there were targets, the holders in the table are
-- the node and the peers that are reported, and otherwise none are reported, nor a total.
pub record IsReported (k : ℕ) (h : Str) (w : World) (results : Dict Outcome) (no_targets : Bool)
    : Type 0 where
  pub outcome : Outcome
  pub found : Dict.get results h ≡ some outcome
  pub few : length outcome.replicated_to ≤ k
  pub held :
      ((no_targets ≡ true) × (outcome.replicated_to ≡ []) × (outcome.total_copies ≡ none))
      ⊎ ((no_targets ≡ false)
          × (get_holders h w.routing ≡ w.node.node_id ∷ outcome.replicated_to)
          × (outcome.total_copies ≡ some (length (get_holders h w.routing))))

module _ (score : Dict PeerInfo → PeerInfo → ℕ) (int16 : Str → Option ℕ) (now k : ℕ)
    (links : Str → Links) where
  step : ChunkInfo × Bytes → World → World × Outcome
  step c w = replicate_chunk score int16 now k links c w

  targets_of : ChunkInfo × Bytes → World → List Str
  targets_of c w =
      select_targets score int16 now k (register_chunk c.0.chunk_hash c.0.chunk_hash w.node)
        c.0.chunk_hash

  reached : ChunkInfo × Bytes → World → List Str
  unfolding targets_of
  reached c w =
      only
        (send_chunk_to_peer (links c.0.chunk_hash)
          (register_chunk c.0.chunk_hash c.0.chunk_hash w.node))
        (take k (targets_of c w))

  -- A turn writes nothing else to the table than the holders of its chunk, which it reports.
  step_cases :
      (c : ChunkInfo × Bytes) (w : World)
      → ((is_empty (targets_of c w) ≡ true)
          × ((step c w).0.routing ≡ w.routing)
          × ((step c w).1 ≡ record { replicated_to = []; total_copies = none }))
        ⊎ ((is_empty (targets_of c w) ≡ false)
            × ((step c w).0.routing
                ≡ assign_chunk c.0.chunk_hash (w.node.node_id ∷ reached c w) w.routing)
            × ((step c w).1 ≡ record {
              replicated_to = reached c w;
              total_copies = some (1 + length (reached c w));
            }))
  unfolding step replicate_chunk reached targets_of register_chunk
  step_cases c w = elim (Bool-cases (is_empty (targets_of c w))) [
    | inl e ↦ inl (e, rw e refl, rw e refl)
    | inr e ↦ inr (e, rw e refl, rw e refl)
  ]

  step-saved :
      (c : ChunkInfo × Bytes) (w : World)
      → ((step c w).0.store ≡ save_chunk now c.0.chunk_hash c.1 w.store)
        × ((step c w).0.node ≡ register_chunk c.0.chunk_hash c.0.chunk_hash w.node)
  unfolding step replicate_chunk targets_of
  step-saved c w = elim (Bool-cases (is_empty (targets_of c w))) [
    | inl e ↦ rw (targets_of, e) (refl, refl)
    | inr e ↦ rw (targets_of, e) (refl, refl)
  ]

  step-node_id : (c : ChunkInfo × Bytes) (w : World) → (step c w).0.node.node_id ≡ w.node.node_id
  unfolding register_chunk
  step-node_id c w = ap (λ (s : NodeState). s.node_id) (step-saved c w).1

  -- Whether a chunk has no targets does not change from turn to turn.
  abbrev no_targets : Str → World → Bool
  no_targets h w = is_empty (select_targets score int16 now k w.node h)

  step-no_targets :
      (c : ChunkInfo × Bytes) (w : World) (h : Str) → no_targets h (step c w).0 ≡ no_targets h w
  unfolding register_chunk select_targets get_alive_peers
  step-no_targets c w h =
      ap (λ (s : NodeState). is_empty (select_targets score int16 now k s h)) (step-saved c w).1

  here-no_targets :
      (c : ChunkInfo × Bytes) (w : World) → is_empty (targets_of c w) ≡ no_targets c.0.chunk_hash w
  unfolding targets_of register_chunk select_targets get_alive_peers
  here-no_targets c w = refl

  -- The store and the node are those that the chunks leave when they are saved.
  pub replicate_loop-save_all :
      (chunks : List (ChunkInfo × Bytes)) (w : World) (results : Dict Outcome)
      → let after = (replicate_loop score int16 now k links chunks w results).0 in
        (after.store, after.node) ≡ save_all now chunks w.store w.node
  unfolding replicate_loop save_all step
  replicate_loop-save_all [] w results = refl
  replicate_loop-save_all (c ∷ chunks) w results =
      let saved = step-saved c w in
      replicate_loop-save_all chunks (step c w).0 (Dict.put results c.0.chunk_hash (step c w).1)
      ∙ (ap (λ (x : LocalStore). save_all now chunks x (step c w).0.node) saved.0
          ∙ ap
              (λ (x : NodeState). save_all now chunks (save_chunk now c.0.chunk_hash c.1 w.store) x)
              saved.1)

  length-reached : (c : ChunkInfo × Bytes) (w : World) → length (reached c w) ≤ k
  unfolding reached
  length-reached c w = omega (
    arith,
    length-only
        (send_chunk_to_peer (links c.0.chunk_hash)
          (register_chunk c.0.chunk_hash c.0.chunk_hash w.node))
        (take k (targets_of c w)),
    length-take k (targets_of c w),
  )

  reported :
      (h : Str) (w : World) (results : Dict Outcome) (o : Outcome)
      → Dict.get results h ≡ some o
      → length o.replicated_to ≤ k
      → (b : Bool)
      → ((b ≡ true) × (o.replicated_to ≡ []) × (o.total_copies ≡ none))
        ⊎ ((b ≡ false)
            × (get_holders h w.routing ≡ w.node.node_id ∷ o.replicated_to)
            × (o.total_copies ≡ some (length (get_holders h w.routing))))
      → IsReported k h w results b
  reported h w results o found few b held = record {
    outcome = o;
    found = found;
    few = few;
    held = held;
  }

  step-IsReported :
      (c : ChunkInfo × Bytes) (w : World) (results : Dict Outcome) (h : Str)
      → (c.0.chunk_hash ≡ h) ⊎ IsReported k h w results (no_targets h w)
      → IsReported k h
          (step c w).0
          (Dict.put results c.0.chunk_hash (step c w).1)
          (no_targets h (step c w).0)
  step-IsReported c w results h before =
      let got = get-put results c.0.chunk_hash (step c w).1 h in
      let holders =
        get_holders-assign_chunk c.0.chunk_hash (w.node.node_id ∷ reached c w) w.routing h in
      let at_h : str_eq c.0.chunk_hash h ≡ true → is_empty (targets_of c w) ≡ no_targets h w =
        λ e. here-no_targets c w ∙ ap (λ x. no_targets x w) ((str_eq_iff c.0.chunk_hash h).0 e) in
      elim (Bool-cases (str_eq c.0.chunk_hash h)) [
        | inl same ↦ elim (step_cases c w) [
          | inl (nobody, table, out) ↦
              reported h _ _ (step c w).1 (got ∙ rw same refl) (rw out (omega arith)) _
                (inl (step-no_targets c w h ∙ sym (at_h same) ∙ nobody, rw out refl, rw out refl))
          | inr (some_target, table, out) ↦
              let now_held : get_holders h (step c w).0.routing ≡ w.node.node_id ∷ reached c w =
                ap (get_holders h) table ∙ (holders ∙ rw same refl) in
              reported h _ _ (step c w).1 (got ∙ rw same refl) (rw out (length-reached c w)) _ (
                inr (
                  step-no_targets c w h ∙ sym (at_h same) ∙ some_target,
                  now_held ∙ rw (step-node_id c w, out) refl,
                  rw (out, now_held) (ap (λ (n : ℕ). some n) (omega arith)),
                ))
        ]
        | inr other ↦ elim before [
          | inl key ↦ absurd (cc (sym other ∙ (str_eq_iff c.0.chunk_hash h).1 key))
          | inr r ↦
              let table : get_holders h (step c w).0.routing ≡ get_holders h w.routing =
                elim (step_cases c w) [
                  | inl (nobody, same, out) ↦ ap (get_holders h) same
                  | inr (some_target, set, out) ↦ ap (get_holders h) set ∙ (holders ∙ rw other refl)
                ] in
              reported h _ _ r.outcome (got ∙ rw other r.found) r.few _ (elim r.held [
                | inl (nobody, none_sent, alone) ↦
                    inl (step-no_targets c w h ∙ nobody, none_sent, alone)
                | inr (some_target, held, total) ↦ inr (
                  step-no_targets c w h ∙ some_target,
                  table ∙ (held ∙ ap (λ i. i ∷ r.outcome.replicated_to) (sym (step-node_id c w))),
                  total ∙ ap (λ (l : List Str). some (length l)) (sym table),
                )
              ])
        ]
      ]

  replicate_loop-IsReported :
      (chunks : List (ChunkInfo × Bytes)) (w : World) (results : Dict Outcome) (h : Str)
      → Listed h chunks ⊎ IsReported k h w results (no_targets h w)
      → let (after, report) = replicate_loop score int16 now k links chunks w results in
        IsReported k h after report (no_targets h after)
  unfolding replicate_loop step
  replicate_loop-IsReported [] w results h (inl bad) = absurd bad
  replicate_loop-IsReported [] w results h (inr r) = r
  replicate_loop-IsReported (c ∷ chunks) w results h (inl (inl key)) =
      replicate_loop-IsReported chunks _ _ h (inr (step-IsReported c w results h (inl key)))
  replicate_loop-IsReported (c ∷ chunks) w results h (inl (inr later)) =
      replicate_loop-IsReported chunks _ _ h (inl later)
  replicate_loop-IsReported (c ∷ chunks) w results h (inr r) =
      replicate_loop-IsReported chunks _ _ h (inr (step-IsReported c w results h (inr r)))

-- When every chunk is what its hash stands for: after `replicate_chunks` each chunk of the file is
-- in the local store and registered, whatever the connections do, and reported with at most `k`
-- peers. If there are targets for it, the table names the node and the reported peers as its holders,
-- and the total that is reported is their number; if there are none, neither a peer nor a total is
-- reported.
pub replicate_chunks_lem :
    (score : Dict PeerInfo → PeerInfo → ℕ) (int16 : Str → Option ℕ) (now k : ℕ)
    (links : Str → Links) (content : Str → Bytes) (manifest : FileManifest)
    (chunk_data_list : List Bytes) (w : World) (h : Str)
    → AllContent content (zip manifest.chunks chunk_data_list)
    → Listed h (zip manifest.chunks chunk_data_list)
    → let (after, results) = replicate_chunks score int16 now k links manifest chunk_data_list w in
      (load_chunk h after.store ≡ some (content h))
      × (get_chunk_path h after.node ≡ some h)
      × IsReported k h after results (is_empty (select_targets score int16 now k after.node h))
unfolding replicate_chunks
replicate_chunks_lem score int16 now k links content manifest ds w h c listed =
    let chunks = zip manifest.chunks ds in
    let saved = replicate_loop-save_all score int16 now k links chunks w [] in
    let held = save_all-IsHeld content now h chunks w.store w.node c (inl listed) in
    (
      ap (λ (x : LocalStore × NodeState). load_chunk h x.0) saved ∙ held.stored,
      ap (λ (x : LocalStore × NodeState). get_chunk_path h x.1) saved ∙ held.known,
      replicate_loop-IsReported score int16 now k links chunks w [] h (inl listed),
    )
