-- ===== src/Crypto.antt =====
-- backend/file_engine/crypto.py: the encrypted chunk format. SHA-256, PBKDF2, AES-GCM and zstd
-- are parameters; what `os.urandom` returns is an argument.
pub mod RoundTrip
pub mod Parallel
pub mod Tests
use distri_store.Prelude.{
  ℕ, ◌+◌, ◌≡◌, Bool, true, false, Option, none, some, List, [], ◌∷◌, ◌++◌, Str, Bytes, encode,
  length, take, drop, ltb, ◌==◌, if◌then◌else◌,
}

abbrev pub version : ℕ
version = 1

abbrev pub salt_size : ℕ
salt_size = 16

abbrev pub nonce_size : ℕ
nonce_size = 12

abbrev pub tag_size : ℕ
tag_size = 16

abbrev pub header_size : ℕ
header_size = 1 + salt_size + nonce_size + tag_size

-- The exceptions of the file engine, with what their messages name.
pub data Error : Type 0 where
  file_not_found : Error
  too_short : ℕ → Error
  unsupported_version : ℕ → Error
  decryption_failed : Error
  zstd_error : Error
  chunk_hash_mismatch : ℕ → Error
  merkle_root_mismatch : Error
  integrity_check_failed : Error
  chunk_missing : Str → Error
  store_failed : Str → Error

pub data Result {ℓ} (A : Type ℓ) : Type ℓ where
  ok : A → Result A
  err : Error → Result A

infixl 5 ◌>>=◌
abbrev pub ◌>>=◌ {ℓ κ} : {A : Type ℓ} {B : Type κ} → Result A → (A → Result B) → Result B
ok a >>= f = f a
err e >>= f = err e

-- A library call that returns or raises.
abbrev pub or_raise {ℓ} : {A : Type ℓ} → Error → Option A → Result A
or_raise e none = err e
or_raise e (some a) = ok a

-- hashlib, Crypto.Cipher.AES in GCM mode, and zstandard.
pub record Primitives : Type 0 where
  pub sha256_hash : Bytes → Str
  pub pbkdf2_hmac : Bytes → Bytes → Bytes
  pub encrypt_and_digest : Bytes → Bytes → Bytes → Bytes × Bytes
  pub decrypt_and_verify : Bytes → Bytes → Bytes → Bytes → Option Bytes
  pub compress : Bytes → Bytes
  pub decompress : Bytes → Option Bytes

-- What they document: the size of a tag, and that decryption and decompression undo what
-- encryption with the same key and nonce, and compression, did.
pub record PrimitiveLaws (p : Primitives) : Type 0 where
  pub length-tag :
      (key nonce plain : Bytes) → length (p.encrypt_and_digest key nonce plain).1 ≡ tag_size
  pub decrypts :
      (key nonce plain : Bytes)
      → p.decrypt_and_verify key nonce
          (p.encrypt_and_digest key nonce plain).0
          (p.encrypt_and_digest key nonce plain).1
        ≡ some plain
  pub decompresses : (plain : Bytes) → p.decompress (p.compress plain) ≡ some plain

-- `b[i:j]` for i ≤ j.
abbrev pub slice : ℕ → ℕ → Bytes → Bytes
slice from size b = take size (drop from b)

module _ (p : Primitives) where
  open p use {
    sha256_hash, pbkdf2_hmac, encrypt_and_digest, decrypt_and_verify, compress, decompress,
  }

  -- `derive_key`, with the random salt for a call that gives none.
  unfoldable pub derive_key : Bytes → Str → Option Bytes → Bytes × Bytes
  derive_key random password none = (pbkdf2_hmac (encode password) random, random)
  derive_key random password (some salt) = (pbkdf2_hmac (encode password) salt, salt)

  unfoldable pub encrypt_with_key : Bytes → Bytes → Bytes → Bytes → Bytes
  encrypt_with_key nonce plain key salt =
      let (ciphertext, tag) = encrypt_and_digest key nonce plain in
      version ∷ (salt ++ (nonce ++ (tag ++ ciphertext)))

  unfoldable pub encrypt : Bytes → Bytes → Bytes → Str → Bytes
  unfolding derive_key encrypt_with_key
  encrypt random nonce plain password =
      let (key, salt) = derive_key random password none in encrypt_with_key nonce plain key salt

  -- `encrypted[0]`, on data that is long enough.
  abbrev pub first_byte : Bytes → ℕ
  first_byte [] = 0
  first_byte (b ∷ bs) = b

  unfoldable pub decrypt_with_key : Bytes → Bytes → Result Bytes
  decrypt_with_key encrypted key =
      if ltb (length encrypted) header_size
      then err (too_short (length encrypted))
      else if first_byte encrypted == version
      then or_raise decryption_failed (
          decrypt_and_verify key (slice (1 + salt_size) nonce_size encrypted)
            (drop (1 + salt_size + nonce_size + tag_size) encrypted)
            (slice (1 + salt_size + nonce_size) tag_size encrypted))
      else err (unsupported_version (first_byte encrypted))

  unfoldable pub decrypt : Bytes → Str → Result Bytes
  unfolding derive_key decrypt_with_key
  decrypt encrypted password =
      if ltb (length encrypted) header_size
      then err (too_short (length encrypted))
      else if first_byte encrypted == version
      then decrypt_with_key encrypted
          (derive_key [] password (some (slice 1 salt_size encrypted))).0
      else err (unsupported_version (first_byte encrypted))

  abbrev pub succeeded : Result Bytes → Bool
  succeeded (ok b) = true
  succeeded (err e) = false

  -- Every failure of `decrypt` is a `ValueError`.
  unfoldable pub verify_integrity : Bytes → Str → Bool
  unfolding decrypt
  verify_integrity encrypted password = succeeded (decrypt encrypted password)

  -- The workers: a chunk compressed and encrypted with its hash, and the way back.
  unfoldable pub worker_encrypt_keyed : Bytes → Bytes → Bytes → Bytes → Bytes × Str
  worker_encrypt_keyed nonce chunk key salt =
      let ct = encrypt_with_key nonce (compress chunk) key salt in (ct, sha256_hash ct)

  unfoldable pub worker_decrypt_keyed : Bytes → Bytes → Result Bytes
  worker_decrypt_keyed chunk key = do
    decrypted ← decrypt_with_key chunk key
    or_raise zstd_error (decompress decrypted)
