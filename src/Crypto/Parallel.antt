-- ===== src/Crypto/Parallel.antt =====
-- The other workers of crypto.py and the batch API over them. The pool runs the workers in any
-- order and returns their results in the order of the chunks; nonce `i` is drawn for chunk `i`.
use distri_store.Prelude.{
  ℕ, suc, ◌≡◌, refl, ap, ◌∙◌, Bool, true, none, some, List, [], ◌∷◌, map, Str, Bytes, encode,
  length, if◌then◌else◌,
}
use distri_store.Crypto.{
  salt_size, nonce_size, Result, ok, ◌>>=◌, Primitives, PrimitiveLaws, slice, derive_key, encrypt,
  encrypt_with_key, decrypt_with_key, worker_encrypt_keyed, worker_decrypt_keyed,
}
use distri_store.Crypto.RoundTrip.{
  slice-encrypt_with_key, worker_decrypt_keyed-worker_encrypt_keyed,
}

module _ (p : Primitives) where
  unfoldable pub worker_encrypt : Bytes → Bytes → Bytes → Str → Bytes × Str
  worker_encrypt random nonce chunk password =
      let ct = encrypt p random nonce chunk password in (ct, p.sha256_hash ct)

  unfoldable pub worker_encrypt_keyed_nocompress : Bytes → Bytes → Bytes → Bytes → Bytes × Str
  worker_encrypt_keyed_nocompress nonce chunk key salt =
      let ct = encrypt_with_key p nonce chunk key salt in (ct, p.sha256_hash ct)

  unfoldable pub worker_decrypt_keyed_nocompress : Bytes → Bytes → Result Bytes
  worker_decrypt_keyed_nocompress chunk key = decrypt_with_key p chunk key

  unfoldable pub worker_hash : Bytes → Str
  worker_hash body = p.sha256_hash body

  unfoldable pub encrypt_all : (ℕ → Bytes) → ℕ → Bytes → Bytes → List Bytes → List (Bytes × Str)
  unfolding worker_encrypt_keyed
  encrypt_all nonces i key salt [] = []
  encrypt_all nonces i key salt (chunk ∷ chunks) =
      worker_encrypt_keyed p (nonces i) chunk key salt ∷ encrypt_all nonces (suc i) key salt chunks

  unfoldable pub encrypt_chunks_parallel :
      Bytes → (ℕ → Bytes) → List Bytes → Str → List (Bytes × Str)
  unfolding encrypt_all derive_key
  encrypt_chunks_parallel random nonces chunks password =
      let (key, salt) = derive_key p random password none in encrypt_all nonces 0 key salt chunks

  -- The results in order; the first failure among them is raised.
  unfoldable pub decrypt_all : Bool → Bytes → List Bytes → Result (List Bytes)
  unfolding worker_decrypt_keyed worker_decrypt_keyed_nocompress
  decrypt_all compressed key [] = ok []
  decrypt_all compressed key (chunk ∷ chunks) = do
    b ←
        if compressed
        then worker_decrypt_keyed p chunk key
        else worker_decrypt_keyed_nocompress chunk key
    bs ← decrypt_all compressed key chunks
    ok (b ∷ bs)

  unfoldable pub decrypt_chunks_parallel : List Bytes → Str → Bool → Result (List Bytes)
  unfolding decrypt_all derive_key
  decrypt_chunks_parallel [] password compressed = ok []
  decrypt_chunks_parallel (chunk ∷ chunks) password compressed =
      decrypt_all compressed (derive_key p [] password (some (slice 1 salt_size chunk))).0
        (chunk ∷ chunks)

  unfoldable pub hash_chunks_parallel : List Bytes → List Str
  unfolding worker_hash
  hash_chunks_parallel chunks = map worker_hash chunks

  abbrev pub stored : List (Bytes × Str) → List Bytes
  stored l = map (λ e. e.0) l

  module _ (laws : PrimitiveLaws p) where
    decrypt_all-encrypt_all :
        (nonces : ℕ → Bytes) (i : ℕ) (key salt : Bytes) (chunks : List Bytes)
        → length salt ≡ salt_size
        → ((j : ℕ) → length (nonces j) ≡ nonce_size)
        → decrypt_all true key (stored (encrypt_all nonces i key salt chunks)) ≡ ok chunks
    unfolding decrypt_all encrypt_all worker_encrypt_keyed
    decrypt_all-encrypt_all nonces i key salt [] hs hn = refl
    decrypt_all-encrypt_all nonces i key salt (c ∷ cs) hs hn =
        let one =
          worker_decrypt_keyed-worker_encrypt_keyed p laws (nonces i) c key salt hs (hn i) in
        let more = decrypt_all-encrypt_all nonces (suc i) key salt cs hs hn in rw (one.0, more) refl

    -- For a salt of 16 bytes and nonces of 12: decrypting a batch under the password it was
    -- encrypted with gives the chunks back in their order.
    pub decrypt_chunks_parallel-encrypt_chunks_parallel :
        (random : Bytes) (nonces : ℕ → Bytes) (chunks : List Bytes) (password : Str)
        → length random ≡ salt_size
        → ((j : ℕ) → length (nonces j) ≡ nonce_size)
        → decrypt_chunks_parallel
            (stored (encrypt_chunks_parallel random nonces chunks password))
            password
            true
          ≡ ok chunks
    unfolding decrypt_chunks_parallel encrypt_chunks_parallel encrypt_all
    decrypt_chunks_parallel-encrypt_chunks_parallel random nonces [] password hr hn = refl
    decrypt_chunks_parallel-encrypt_chunks_parallel random nonces (c ∷ cs) password hr hn =
        let key = p.pbkdf2_hmac (encode password) random in
        let same : (derive_key p [] password
              (some (slice 1 salt_size (worker_encrypt_keyed p (nonces 0) c key random).0))).0
            ≡ key =
          ap (λ (s : Bytes). p.pbkdf2_hmac (encode password) s)
            (slice-encrypt_with_key p laws (nonces 0) (p.compress c) key random hr) in
        ap (λ (k : Bytes). decrypt_all true k (stored (encrypt_all nonces 0 key random (c ∷ cs))))
          same
        ∙ decrypt_all-encrypt_all nonces 0 key random (c ∷ cs) hr hn
