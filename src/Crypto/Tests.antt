-- ===== src/Crypto/Tests.antt =====
-- Primitives to run the model with, and the round trips on them.
use distri_store.Prelude.{
  ◌≡◌, refl, true, none, some, [], ◌∷◌, Bytes, codes, replicate, str_eq, if◌then◌else◌,
}
use distri_store.Crypto.{ok, Primitives, PrimitiveLaws, encrypt, decrypt, verify_integrity}
use distri_store.Crypto.RoundTrip.{decrypt-encrypt}

abbrev pub toy_tag : Bytes
toy_tag = replicate 16 7

-- Not cryptography: the bytes are their own hash and ciphertext, under a fixed tag.
abbrev pub toy : Primitives
toy = record {
  sha256_hash = λ b. b;
  pbkdf2_hmac = λ password salt. salt;
  encrypt_and_digest = λ key nonce plain. (plain, toy_tag);
  decrypt_and_verify =
      λ key nonce ciphertext tag. if str_eq tag toy_tag then some ciphertext else none;
  compress = λ b. 1 ∷ b;
  decompress = λ b. elim b [ [] ↦ none | ◌∷◌ x l ↦ some l ];
}

pub toy_laws : PrimitiveLaws toy
unfolding str_eq
toy_laws = record {
  length-tag = λ key nonce plain. refl;
  decrypts = λ key nonce plain. refl;
  decompresses = λ plain. refl;
}

abbrev pub toy_salt : Bytes
toy_salt = replicate 16 3

abbrev pub toy_nonce : Bytes
toy_nonce = replicate 12 5

decrypt-encrypt_example :
    (decrypt toy (encrypt toy toy_salt toy_nonce (8 ∷ 9 ∷ []) (codes "key")) (codes "key")
      ≡ ok (8 ∷ 9 ∷ []))
    × (verify_integrity toy
          (encrypt toy toy_salt toy_nonce (8 ∷ 9 ∷ []) (codes "key"))
          (codes "key")
        ≡ true)
decrypt-encrypt_example =
    decrypt-encrypt toy toy_laws toy_salt toy_nonce (8 ∷ 9 ∷ []) (codes "key") refl refl
