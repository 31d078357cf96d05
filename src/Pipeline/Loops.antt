-- ===== src/Pipeline/Loops.antt =====
-- The loops that merge and stream, over chunks that were sealed.
use mathlib.Core.Path.{subst}
use mathlib.Core.List.{append-nil, append_assoc}
use distri_store.Prelude.{
  ℕ, ◌≡◌, ◌⊎◌, refl, sym, ap, ◌∙◌, true, false, Option, none, some, inl, inr, List, [], ◌∷◌, ◌++◌,
  map, Str, Bytes, encode, length, Bool-cases, not, ◌&&◌, if◌then◌else◌,
}
use distri_store.Manifest.{is_empty}
use distri_store.Crypto.{
  salt_size, nonce_size, ok, Primitives, PrimitiveLaws, derive_key, worker_decrypt_keyed,
}
use distri_store.Crypto.RoundTrip.{slice-encrypt_with_key, decrypt_with_key-encrypt_with_key}
use distri_store.Chunker.{Sealed, seal_chunk, keys_of}
use distri_store.Chunker.Stream.{join_chunks}
use distri_store.Local.Contents.{HoldsAll}
use distri_store.Pipeline.{
  open_keyed, open_unkeyed, key_from, open_piped, write_piped, kept_key, stream_loop,
}
use distri_store.Pipeline.Order.{blocks, entries, infos}

module _ (p : Primitives) (laws : PrimitiveLaws p) where
  opens_plain :
      (nonces : ℕ → Bytes) (c : ℕ × Bytes)
      → open_unkeyed p true (seal_chunk p none nonces c).bytes ≡ ok c.1
  unfolding open_unkeyed seal_chunk
  opens_plain nonces c = rw (laws.decompresses c.1) refl

  opens_keyed :
      (nonces : ℕ → Bytes) (key salt : Bytes) (c : ℕ × Bytes)
      → length salt ≡ salt_size
      → length (nonces c.0) ≡ nonce_size
      → open_keyed p true key (seal_chunk p (some (key, salt)) nonces c).bytes ≡ ok c.1
  unfolding open_keyed seal_chunk worker_decrypt_keyed
  opens_keyed nonces key salt c hs hn =
      rw
        (
          decrypt_with_key-encrypt_with_key p laws (nonces c.0) (p.compress c.1) key salt hs hn,
          laws.decompresses c.1,
        )
        refl

  -- The key that is derived from the salt of a chunk.
  key_from_sealed :
      (nonces : ℕ → Bytes) (password : Str) (key salt : Bytes) (c : ℕ × Bytes)
      → length salt ≡ salt_size
      → key_from p password (seal_chunk p (some (key, salt)) nonces c).bytes
        ≡ p.pbkdf2_hmac (encode password) salt
  unfolding seal_chunk derive_key
  key_from_sealed nonces password key salt c hs =
      ap (p.pbkdf2_hmac (encode password))
        (slice-encrypt_with_key p laws (nonces c.0) (p.compress c.1) key salt hs)

  module _ (random : Bytes) (nonces : ℕ → Bytes) (password : Str) (hr : length random ≡ salt_size)
      (hn : (i : ℕ) → length (nonces i) ≡ nonce_size) where
    abbrev pub derived : Bytes
    derived = p.pbkdf2_hmac (encode password) random

    abbrev pub seals : Option (Bytes × Bytes) → List (ℕ × Bytes) → List Sealed
    seals keys l = map (seal_chunk p keys nonces) l

    -- Either there is no password and no key, or the key comes from the password.
    abbrev pub IsKeyed : Option (Bytes × Bytes) → Type 0
    IsKeyed keys = (keys ≡ none) ⊎ ((keys ≡ some (derived, random)) × (is_empty password ≡ false))

    pub keys_of-IsKeyed : IsKeyed (keys_of p random password)
    unfolding derive_key
    keys_of-IsKeyed = elim (Bool-cases (is_empty password)) [
      | inl e ↦ inl (rw e refl)
      | inr e ↦ inr (rw e refl, e)
    ]

    open_piped_sealed :
        (keys : Option (Bytes × Bytes)) (c : ℕ × Bytes)
        → IsKeyed keys
        → let s = seal_chunk p keys nonces c in open_piped p true password s.info s.bytes ≡ ok c.1
    unfolding open_piped seal_chunk
    open_piped_sealed keys c (inl plain) =
        let Opens : Option (Bytes × Bytes) → Type 0 = λ keys.
          let s = seal_chunk p keys nonces c in
          open_piped p true password s.info s.bytes ≡ ok c.1 in
        subst Opens (sym plain) (opens_plain nonces c)
    open_piped_sealed keys c (inr (keyed, e)) =
        let Opens : Option (Bytes × Bytes) → Type 0 = λ keys.
          let s = seal_chunk p keys nonces c in
          open_piped p true password s.info s.bytes ≡ ok c.1 in
        let key = key_from_sealed nonces password derived random c hr in
        let opens : Opens (some (derived, random)) = rw e (
          ap
            (λ (k : Bytes).
              open_keyed p true k (seal_chunk p (some (derived, random)) nonces c).bytes)
            key
          ∙ opens_keyed nonces derived random c hr (hn c.0)) in
        subst Opens (sym keyed) opens

    pub write_piped_lem :
        (load_fn : Str → Option Bytes) (keys : Option (Bytes × Bytes)) (l : List (ℕ × Bytes))
        (done : Bytes)
        → IsKeyed keys
        → HoldsAll load_fn (entries (seals keys l))
        → write_piped p load_fn true password (infos (seals keys l)) done done
          ≡ (done ++ join_chunks l, (done ++ join_chunks l, none))
    unfolding write_piped
    write_piped_lem load_fn keys [] done k h =
        ap (λ (x : Bytes). (x, (x, none))) (sym (append-nil done))
    write_piped_lem load_fn keys (c ∷ l) done k h =
        rw (h.0, open_piped_sealed keys c k, write_piped)
          (write_piped_lem load_fn keys l (done ++ c.1) k h.1
            ∙ ap (λ (x : Bytes). (x, (x, none))) (append_assoc done c.1 (join_chunks l)))

    stream_loop_plain :
        (load_fn : Str → Option Bytes) (dec_key : Option Bytes) (l : List (ℕ × Bytes))
        → HoldsAll load_fn (entries (seals none l))
        → stream_loop p load_fn true password dec_key (infos (seals none l)) ≡ (blocks l, none)
    unfolding stream_loop seal_chunk
    stream_loop_plain load_fn dec_key [] h = refl
    stream_loop_plain load_fn dec_key (c ∷ l) h =
        let later : stream_loop p load_fn true password dec_key (infos (seals none l))
            ≡ (blocks l, none) =
          stream_loop_plain load_fn dec_key l h.1 in
        rw (stream_loop, h.0, opens_plain nonces c, later) refl

    stream_loop_keyed :
        (load_fn : Str → Option Bytes) (dec_key : Option Bytes) (l : List (ℕ × Bytes))
        → is_empty password ≡ false
        → (dec_key ≡ none) ⊎ (dec_key ≡ some derived)
        → HoldsAll load_fn (entries (seals (some (derived, random)) l))
        → stream_loop p load_fn true password dec_key (infos (seals (some (derived, random)) l))
          ≡ (blocks l, none)
    unfolding stream_loop seal_chunk
    stream_loop_keyed load_fn dec_key [] e k h = refl
    stream_loop_keyed load_fn dec_key (c ∷ l) e k h =
        let s = seal_chunk p (some (derived, random)) nonces c in
        let key : kept_key p password dec_key s.bytes ≡ derived = elim k [
          | inl first ↦ rw first (key_from_sealed nonces password derived random c hr)
          | inr later ↦ rw later refl
        ] in
        let kept =
          if s.info.encrypted && not (is_empty password)
          then some (kept_key p password dec_key s.bytes)
          else dec_key in
        let later : stream_loop p load_fn true password kept
              (infos (seals (some (derived, random)) l))
            ≡ (blocks l, none) =
          stream_loop_keyed load_fn kept l e (inr (rw (e, key) refl)) h.1 in
        let opens : (if s.info.encrypted && not (is_empty password)
              then open_keyed p true (kept_key p password dec_key s.bytes) s.bytes
              else open_unkeyed p true s.bytes)
            ≡ ok c.1 =
          rw (e, key) (opens_keyed nonces derived random c hr (hn c.0)) in
        rw (stream_loop, h.0, opens, later) refl

    pub stream_loop_lem :
        (load_fn : Str → Option Bytes) (keys : Option (Bytes × Bytes)) (l : List (ℕ × Bytes))
        → IsKeyed keys
        → HoldsAll load_fn (entries (seals keys l))
        → stream_loop p load_fn true password none (infos (seals keys l)) ≡ (blocks l, none)
    stream_loop_lem load_fn keys l (inl plain) h =
        let Streams : Option (Bytes × Bytes) → Type 0 = λ keys.
          HoldsAll load_fn (entries (seals keys l))
          → stream_loop p load_fn true password none (infos (seals keys l)) ≡ (blocks l, none) in
        subst Streams (sym plain) (stream_loop_plain load_fn none l) h
    stream_loop_lem load_fn keys l (inr (keyed, e)) h =
        let Streams : Option (Bytes × Bytes) → Type 0 = λ keys.
          HoldsAll load_fn (entries (seals keys l))
          → stream_loop p load_fn true password none (infos (seals keys l)) ≡ (blocks l, none) in
        subst Streams (sym keyed) (stream_loop_keyed load_fn none l e (inl refl)) h
