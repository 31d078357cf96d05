-- ===== src/Replicate/Copies.antt =====
-- What a replication leaves on the node, and how many peers it reports.
use mathlib.Core.Option
use distri_store.Prelude.{
  ℕ, ◌≤◌, ◌≡◌, refl, sym, ap, ◌∙◌, ◌⊎◌, Option, some, List, [], ◌∷◌, Str, Bytes, length,
  length-take, take, str_eq, str_eq_iff, inl, inr, Bool-cases, arith,
}
use distri_store.Prelude.Dict
use distri_store.Prelude.Dict.{Dict, get-put}
use distri_store.Manifest.{ChunkInfo, FileManifest}
use distri_store.Chunker.{zip}
use distri_store.Local.{ChunkFile, LocalStore, save_chunk, load_chunk}
use distri_store.Node.{NodeState, register_chunk, get_chunk_path, get_alive_peers}
use distri_store.Replicate.{save_all, send_to_peers, replicate_file}

-- Every chunk is what its hash stands for.
abbrev pub AllContent : (Str → Bytes) → List (ChunkInfo × Bytes) → Type 0
AllContent content [] = Unit
AllContent content ((info, body) ∷ l) = (body ≡ content info.chunk_hash) × AllContent content l

abbrev pub Listed : Str → List (ChunkInfo × Bytes) → Type 0
Listed h [] = ⊥
Listed h ((info, body) ∷ l) = (info.chunk_hash ≡ h) ⊎ Listed h l

pub record IsHeld (content : Str → Bytes) (h : Str) (store : LocalStore) (s : NodeState)
    : Type 0 where
  pub stored : load_chunk h store ≡ some (content h)
  pub known : get_chunk_path h s ≡ some h

save-IsHeld :
    (content : Str → Bytes) (now : ℕ) (h k : Str) (body : Bytes) (store : LocalStore)
    (s : NodeState)
    → body ≡ content k
    → (k ≡ h) ⊎ IsHeld content h store s
    → IsHeld content h (save_chunk now k body store) (register_chunk k k s)
unfolding save_chunk register_chunk load_chunk get_chunk_path
save-IsHeld content now h k body store s c before =
    let file : ChunkFile = record { body = body; accessed = now } in
    elim (Bool-cases (str_eq k h)) [
      | inl same ↦
          let key : k ≡ h = (str_eq_iff k h).0 same in
          let put_file : Dict.get (Dict.put store.files k file) h ≡ some file =
            get-put store.files k file h ∙ rw same refl in
          let put_path : Dict.get (Dict.put s.chunks k k) h ≡ some k =
            get-put s.chunks k k h ∙ rw same refl in
          record {
            stored =
                ap (Option.map (λ (f : ChunkFile). f.body)) put_file
                ∙ ap (λ (b : Bytes). some b) (c ∙ ap content key);
            known = put_path ∙ ap (λ (x : Str). some x) key;
          }
      | inr other ↦ elim before [
        | inl key ↦ absurd (cc (sym other ∙ (str_eq_iff k h).1 key))
        | inr held ↦
            let kept_file : Dict.get (Dict.put store.files k file) h ≡ Dict.get store.files h =
              get-put store.files k file h ∙ rw other refl in
            let kept_path : Dict.get (Dict.put s.chunks k k) h ≡ Dict.get s.chunks h =
              get-put s.chunks k k h ∙ rw other refl in
            record {
              stored = ap (Option.map (λ (f : ChunkFile). f.body)) kept_file ∙ held.stored;
              known = kept_path ∙ held.known;
            }
      ]
    ]

pub save_all-IsHeld :
    (content : Str → Bytes) (now : ℕ) (h : Str) (l : List (ChunkInfo × Bytes)) (store : LocalStore)
    (s : NodeState)
    → AllContent content l
    → Listed h l ⊎ IsHeld content h store s
    → let saved = save_all now l store s in IsHeld content h saved.0 saved.1
unfolding save_all
save_all-IsHeld content now h [] store s c (inl bad) = absurd bad
save_all-IsHeld content now h [] store s c (inr held) = held
save_all-IsHeld content now h ((info, body) ∷ l) store s c (inl (inl key)) =
    save_all-IsHeld content now h l _ _ c.1
      (inr (save-IsHeld content now h info.chunk_hash body store s c.0 (inl key)))
save_all-IsHeld content now h ((info, body) ∷ l) store s c (inl (inr later)) =
    save_all-IsHeld content now h l _ _ c.1 (inl later)
save_all-IsHeld content now h ((info, body) ∷ l) store s c (inr held) =
    save_all-IsHeld content now h l _ _ c.1
      (inr (save-IsHeld content now h info.chunk_hash body store s c.0 (inr held)))

length-send_to_peers {ℓ} :
    {R : Type ℓ} (transfer : Str → Option R) (l : List Str)
    → length (send_to_peers transfer l) ≤ length l
unfolding send_to_peers
length-send_to_peers transfer [] = omega arith
length-send_to_peers transfer (i ∷ l) = ground (arith, length-send_to_peers transfer l)

-- When every chunk is what its hash stands for: whatever the peers do, each chunk of the file is
-- afterwards in the local store and registered as held, and at most `k` peers are reported.
pub replicate_file_lem :
    {R : Type 0} (content : Str → Bytes) (now k : ℕ) (transfer : Str → Option R)
    (manifest : FileManifest) (chunk_data_list : List Bytes) (store : LocalStore) (s : NodeState)
    (h : Str)
    → AllContent content (zip manifest.chunks chunk_data_list)
    → Listed h (zip manifest.chunks chunk_data_list)
    → let ((store_after, s_after), results) =
        replicate_file now k transfer manifest chunk_data_list store s in
      (load_chunk h store_after ≡ some (content h))
      × (get_chunk_path h s_after ≡ some h)
      × (length results ≤ k)
unfolding replicate_file
replicate_file_lem content now k transfer manifest ds store s h c listed =
    let chunks = zip manifest.chunks ds in
    let held = save_all-IsHeld content now h chunks store s c (inl listed) in
    let peer_ids = Dict.keys (get_alive_peers now 15 (save_all now chunks store s).1) in
    (
      held.stored,
      held.known,
      omega (arith, length-send_to_peers transfer (take k peer_ids), length-take k peer_ids),
    )
