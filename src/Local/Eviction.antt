-- ===== src/Local/Eviction.antt =====
-- What an eviction frees.
use mathlib.Core.Path.{subst}
use mathlib.Core.Option
use mathlib.Core.Option.{some-injective}
use distri_store.Prelude.{
  ℕ, ◌+◌, ◌≤◌, ◌≡◌, refl, sym, ap, ◌∙◌, ◌⊎◌, Bool, false, Option, none, some, [], ◌∷◌, Str, length,
  leb, str_eq, str_eq_iff, str_eq_refl, inl, inr, Bool-cases, arith, if◌then◌else◌,
}
use distri_store.Prelude.Dict
use distri_store.Prelude.Dict.{Dict, IsDistinct, get-remove, remove-IsDistinct}
use distri_store.Prelude.Sort.{insert_by, sort_by}
use distri_store.Local.{
  ChunkFile, LocalStore, chunk_bytes, get_storage_size, older, evict_loop, evict_oldest_chunks,
  load_chunk,
}

get-insert_by :
    (h : Str) (f : ChunkFile) (l : Dict ChunkFile) (k : Str)
    → Dict.get l h ≡ none
    → Dict.get (insert_by older (h, f) l) k ≡ (if str_eq h k then some f else Dict.get l k)
unfolding insert_by Dict.get
get-insert_by h f [] k n = refl
get-insert_by h f ((j, g) ∷ l) k n =
    ground (arith, str_eq_iff h k, str_eq_iff j k, str_eq_iff j h, get-insert_by h f l k)

insert_by-IsDistinct :
    (h : Str) (f : ChunkFile) (l : Dict ChunkFile)
    → Dict.get l h ≡ none
    → IsDistinct l
    → IsDistinct (insert_by older (h, f) l)
unfolding insert_by Dict.get
insert_by-IsDistinct h f [] n d = (refl, tt)
insert_by-IsDistinct h f ((j, g) ∷ l) n d = elim (Bool-cases (older (h, f) (j, g))) [
  | inl first ↦ rw first (n, d)
  | inr later ↦ rw later (
    get-insert_by h f l j (ground (arith)) ∙ ground (arith, str_eq_iff h j, str_eq_iff j h, d.0),
    insert_by-IsDistinct h f l (ground (arith)) d.1,
  )
]

sort_by_lem :
    (l : Dict ChunkFile)
    → IsDistinct l
    → IsDistinct (sort_by older l) × ((k : Str) → Dict.get (sort_by older l) k ≡ Dict.get l k)
unfolding sort_by Dict.get
sort_by_lem [] d = (tt, λ k. refl)
sort_by_lem ((h, f) ∷ l) d =
    let (sorted, same) = sort_by_lem l d.1 in
    let absent = same h ∙ d.0 in
    (
      insert_by-IsDistinct h f (sort_by older l) absent sorted,
      λ k. get-insert_by h f (sort_by older l) k absent ∙ ground (arith, same k),
    )

remove_absent : (d : Dict ChunkFile) (h : Str) → Dict.get d h ≡ none → Dict.remove d h ≡ d
unfolding Dict.get Dict.remove
remove_absent [] h n = refl
remove_absent ((j, g) ∷ d) h n = elim (Bool-cases (str_eq j h)) [
  | inl same ↦ absurd (cc (rw same at n))
  | inr other ↦ rw other (ap (◌∷◌ (j, g)) (remove_absent d h (rw other at n)))
]

bytes-remove :
    (d : Dict ChunkFile) (h : Str) {f : ChunkFile}
    → IsDistinct d
    → Dict.get d h ≡ some f
    → chunk_bytes (Dict.remove d h) + length f.body ≡ chunk_bytes d
unfolding chunk_bytes Dict.get Dict.remove
bytes-remove [] h n e = absurd (cc)
bytes-remove ((j, g) ∷ d) h {f} n e = elim (Bool-cases (str_eq j h)) [
  | inr other ↦ rw other (let rest = bytes-remove d h n.1 (rw other at e) in omega (arith, rest))
  | inl same ↦
      let absent : Dict.get d h ≡ none =
        subst (λ i. Dict.get d i ≡ none) ((str_eq_iff j h).0 same) n.0 in
      let alike : g ≡ f = some-injective _ _ (rw same at e) in
      let size : length g.body ≡ length f.body = ap (λ (x : ChunkFile). length x.body) alike in
      rw (same, remove_absent d h absent) (omega (arith, size))
]

-- What the loop leaves of the files, for a file `k` that stands as `pending` in the list.
record IsEvicted (target freed : ℕ) (files : Dict ChunkFile) (k : Str) (pending : Option ChunkFile)
    (r : ℕ × Dict ChunkFile) : Type 0 where
  bytes : chunk_bytes r.1 + r.0 ≡ chunk_bytes files + freed
  reached : (target ≤ r.0) ⊎ ((pending ≡ none) ⊎ (Dict.get r.1 k ≡ none))
  kept : (Dict.get r.1 k ≡ none) ⊎ (Dict.get r.1 k ≡ Dict.get files k)

skip_file :
    (target freed : ℕ) (files : Dict ChunkFile) (k h : Str) (f : ChunkFile)
    (pending : Option ChunkFile) (r : ℕ × Dict ChunkFile)
    → str_eq h k ≡ false
    → IsEvicted target freed files k pending r
    → IsEvicted target freed files k (if str_eq h k then some f else pending) r
skip_file target freed files k h f pending r other e = rw other e

evict_file :
    (target freed : ℕ) (files : Dict ChunkFile) (k h : Str) (f : ChunkFile)
    (pending : Option ChunkFile) (r : ℕ × Dict ChunkFile)
    → IsDistinct files
    → Dict.get files h ≡ some f
    → IsEvicted target (freed + length f.body) (Dict.remove files h) k pending r
    → IsEvicted target freed files k (if str_eq h k then some f else pending) r
evict_file target freed files k h f pending r d found e = record {
  bytes = omega (arith, e.bytes, bytes-remove files h d found);
  reached = ground (arith, e.reached, e.kept, get-remove files h k);
  kept = ground (arith, e.kept, get-remove files h k);
}

-- The loop frees what it counts, and stops before the target only when no file that can be
-- deleted is left.
evict_loop_lem :
    (stuck : Str → Bool) (target : ℕ) (l : Dict ChunkFile) (freed : ℕ) (files : Dict ChunkFile)
    (k : Str)
    → IsDistinct l
    → IsDistinct files
    → ((j : Str) (f : ChunkFile) → Dict.get l j ≡ some f → Dict.get files j ≡ some f)
    → stuck k ≡ false
    → IsEvicted target freed files k (Dict.get l k) (evict_loop stuck target l freed files)
unfolding evict_loop Dict.get
evict_loop_lem stuck target [] freed files k dl df sub free = record {
  bytes = refl;
  reached = inr (inl refl);
  kept = inr refl;
}
evict_loop_lem stuck target ((h, f) ∷ rest) freed files k dl df sub free =
    let found : Dict.get files h ≡ some f = sub h f (rw (str_eq_refl h) refl) in
    let later : (j : Str) (g : ChunkFile) → Dict.get rest j ≡ some g → str_eq h j ≡ false = λ j g e.
      elim (Bool-cases (str_eq h j)) [
        | inr other ↦ other
        | inl same ↦
            let absent : Dict.get rest j ≡ none =
              subst (λ i. Dict.get rest i ≡ none) ((str_eq_iff h j).0 same) dl.0 in
            absurd (cc (rw absent at e))
      ] in
    elim (Bool-cases (leb target freed)) [
      | inl enough ↦
          rw enough (record { bytes = refl; reached = inl (ground arith); kept = inr refl })
      | inr short ↦ elim (Bool-cases (stuck h)) [
        | inl held ↦
            let other : str_eq h k ≡ false = ground (arith, str_eq_iff h k) in
            rw (short, held)
              (skip_file target freed files k h f _ _ other (
                evict_loop_lem stuck target rest freed files k dl.1 df
                  (λ j g e. sub j g (rw (later j g e) e)) free))
        | inr loose ↦
            rw (short, loose)
              (evict_file target freed files k h f _ _ df found (
                evict_loop_lem stuck target rest (freed + length f.body) (Dict.remove files h) k
                  dl.1 (remove-IsDistinct files h df)
                  (λ j g e. get-remove files h j ∙ rw (later j g e) (sub j g (rw (later j g e) e)))
                  free))
      ]
    ]

-- For a folder without double names: an eviction frees what it returns, and unless it reaches the
-- target, it leaves no chunk file that can be deleted.
pub evict_oldest_chunks_lem :
    (stuck : Str → Bool) (target_bytes_to_free : ℕ) (s : LocalStore) (k : Str)
    → IsDistinct s.files
    → stuck k ≡ false
    → let (left, freed) = evict_oldest_chunks stuck target_bytes_to_free s in
      (get_storage_size left + freed ≡ get_storage_size s)
      × ((target_bytes_to_free ≤ freed) ⊎ (load_chunk k left ≡ none))
unfolding evict_oldest_chunks get_storage_size load_chunk
evict_oldest_chunks_lem stuck target s k d free =
    let (sorted, same) = sort_by_lem s.files d in
    let done =
      evict_loop_lem stuck target (sort_by older s.files) 0 s.files k sorted d
        (λ j f e. sym (same j) ∙ e) free in
    let unread =
      λ (e : Dict.get (evict_loop stuck target (sort_by older s.files) 0 s.files).1 k ≡ none).
        ap (Option.map (λ (f : ChunkFile). f.body)) e in
    (
      omega (arith, done.bytes),
      elim done.reached [
        | inl enough ↦ inl enough
        | inr (inr gone) ↦ inr (unread gone)
        | inr (inl unlisted) ↦ elim done.kept [
          | inl gone ↦ inr (unread gone)
          | inr as_before ↦ inr (unread (as_before ∙ (sym (same k) ∙ unlisted)))
        ]
      ],
    )
