-- ===== src/Crypto/RoundTrip.antt =====
-- What was encrypted is decrypted; the layout of an encrypted chunk.
use distri_store.Prelude.{
  ℕ, zero, suc, ◌+◌, ◌≡◌, refl, ap, ◌∙◌, true, false, [], ◌∷◌, ◌++◌, Str, Bytes, encode, length,
  length-append, take, drop, ltb, arith,
}
use distri_store.Crypto.{
  salt_size, nonce_size, header_size, ok, Primitives, PrimitiveLaws, slice, encrypt_with_key,
  encrypt, decrypt_with_key, decrypt, verify_integrity, succeeded, worker_encrypt_keyed,
  worker_decrypt_keyed,
}

pub take_append : (n : ℕ) (a b : Bytes) → length a ≡ n → take n (a ++ b) ≡ a
take_append zero [] b h = refl
take_append zero (x ∷ a) b h = absurd (omega arith)
take_append (suc n) [] b h = absurd (omega arith)
take_append (suc n) (x ∷ a) b h = ap (◌∷◌ x) (take_append n a b (omega arith))

pub drop_append : (n m : ℕ) (a b : Bytes) → length a ≡ n → drop (n + m) (a ++ b) ≡ drop m b
drop_append zero m [] b h = let e : 0 + m ≡ m = omega arith in rw e refl
drop_append zero m (x ∷ a) b h = absurd (omega arith)
drop_append (suc n) m [] b h = absurd (omega arith)
drop_append (suc n) m (x ∷ a) b h =
    let e : suc n + m ≡ suc (n + m) = omega arith in rw e (drop_append n m a b (omega arith))

module _ (p : Primitives) (laws : PrimitiveLaws p) where
  -- The salt of a chunk can be read back.
  pub slice-encrypt_with_key :
      (nonce plain key salt : Bytes)
      → length salt ≡ salt_size
      → slice 1 salt_size (encrypt_with_key p nonce plain key salt) ≡ salt
  unfolding encrypt_with_key
  slice-encrypt_with_key nonce plain key salt h = take_append 16 salt _ h

  length-encrypt_with_key :
      (nonce plain key salt : Bytes)
      → length salt ≡ salt_size
      → length nonce ≡ nonce_size
      → length (encrypt_with_key p nonce plain key salt)
        ≡ header_size + length (p.encrypt_and_digest key nonce plain).0
  unfolding encrypt_with_key
  length-encrypt_with_key nonce plain key salt hs hn =
      let tag = (p.encrypt_and_digest key nonce plain).1 in
      let ciphertext = (p.encrypt_and_digest key nonce plain).0 in
      omega (
        arith,
        length-append salt (nonce ++ (tag ++ ciphertext)),
        length-append nonce (tag ++ ciphertext),
        length-append tag ciphertext,
        laws.length-tag key nonce plain,
        hs,
        hn,
      )

  pub decrypt_with_key-encrypt_with_key :
      (nonce plain key salt : Bytes)
      → length salt ≡ salt_size
      → length nonce ≡ nonce_size
      → decrypt_with_key p (encrypt_with_key p nonce plain key salt) key ≡ ok plain
  unfolding decrypt_with_key encrypt_with_key
  decrypt_with_key-encrypt_with_key nonce plain key salt hs hn =
      let tag = (p.encrypt_and_digest key nonce plain).1 in
      let ciphertext = (p.encrypt_and_digest key nonce plain).0 in
      let ht = laws.length-tag key nonce plain in
      let at_nonce : drop 16 (salt ++ (nonce ++ (tag ++ ciphertext)))
          ≡ nonce ++ (tag ++ ciphertext) =
        drop_append 16 0 salt _ hs in
      let at_tag : drop 28 (salt ++ (nonce ++ (tag ++ ciphertext))) ≡ tag ++ ciphertext =
        drop_append 16 12 salt _ hs ∙ drop_append 12 0 nonce _ hn in
      let at_text : drop 44 (salt ++ (nonce ++ (tag ++ ciphertext))) ≡ ciphertext =
        drop_append 16 28 salt _ hs ∙ (drop_append 12 16 nonce _ hn ∙ drop_append 16 0 tag _ ht) in
      let long : ltb (length (encrypt_with_key p nonce plain key salt)) 45 ≡ false =
        ground (arith, length-encrypt_with_key nonce plain key salt hs hn) in
      rw
        (
          long,
          at_nonce,
          at_tag,
          at_text,
          take_append 12 nonce (tag ++ ciphertext) hn,
          take_append 16 tag ciphertext ht,
          laws.decrypts key nonce plain,
        )
        refl

  -- For a salt of 16 bytes and a nonce of 12: `decrypt` with the same password gives back the
  -- plaintext of what `encrypt` produced, and `verify_integrity` accepts it.
  pub decrypt-encrypt :
      (salt nonce plain : Bytes) (password : Str)
      → length salt ≡ salt_size
      → length nonce ≡ nonce_size
      → (decrypt p (encrypt p salt nonce plain password) password ≡ ok plain)
        × (verify_integrity p (encrypt p salt nonce plain password) password ≡ true)
  unfolding encrypt decrypt verify_integrity
  decrypt-encrypt salt nonce plain password hs hn =
      let key = p.pbkdf2_hmac (encode password) salt in
      let long : ltb (length (encrypt_with_key p nonce plain key salt)) 45 ≡ false =
        ground (arith, length-encrypt_with_key nonce plain key salt hs hn) in
      let same : decrypt p (encrypt p salt nonce plain password) password ≡ ok plain =
        rw (long, take_append 16 salt _ hs)
          (rw long at (decrypt_with_key-encrypt_with_key nonce plain key salt hs hn)) in
      (same, ap (succeeded p) same)

  -- For a salt of 16 bytes and a nonce of 12: decrypting and decompressing what a worker
  -- compressed and encrypted gives the chunk back, and the hash beside it is the hash of the bytes
  -- that are stored.
  pub worker_decrypt_keyed-worker_encrypt_keyed :
      (nonce chunk key salt : Bytes)
      → length salt ≡ salt_size
      → length nonce ≡ nonce_size
      → let (ct, hash) = worker_encrypt_keyed p nonce chunk key salt in
        (worker_decrypt_keyed p ct key ≡ ok chunk) × (hash ≡ p.sha256_hash ct)
  unfolding worker_encrypt_keyed worker_decrypt_keyed
  worker_decrypt_keyed-worker_encrypt_keyed nonce chunk key salt hs hn = (
    rw
        (
          decrypt_with_key-encrypt_with_key nonce (p.compress chunk) key salt hs hn,
          laws.decompresses chunk,
        )
        refl,
    refl,
  )
