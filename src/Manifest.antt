-- ===== src/Manifest.antt =====
-- backend/file_engine/chunker.py: `ChunkInfo` and `FileManifest`, with the dictionaries that the
-- API and the database exchange. A key that the dictionary may lack is an `Option`.
pub mod RoundTrip
mod Tests
use mathlib.Core.Option
use distri_store.Prelude.{
  ℕ, Bool, true, false, ◌&&◌, not, Option, none, some, List, [], ◌∷◌, map, Str, Bytes, codes,
  str_eq, length, get_elem?, ltb, if◌then◌else◌,
}
use distri_store.Merkle.{ProofStep, compute_merkle_root, compute_merkle_proof}

abbrev pub default_chunk_size : ℕ
default_chunk_size = 262144

pub record ChunkInfo : Type 0 where
  pub index : ℕ
  pub chunk_hash : Str
  pub size : ℕ
  pub encrypted : Bool

pub record FileManifest : Type 0 where
  pub original_filename : Str
  pub original_size : ℕ
  pub file_hash : Str
  pub chunk_size : ℕ
  pub merkle_root : Str
  pub compression : Str
  pub chunks : List ChunkInfo

pub record ChunkDict : Type 0 where
  pub index : Option ℕ
  pub chunk_hash : Option Str
  pub size : Option ℕ
  pub encrypted : Option Bool

pub record ManifestDict : Type 0 where
  pub version : Option ℕ
  pub original_filename : Option Str
  pub original_size : Option ℕ
  pub file_hash : Option Str
  pub chunk_size : Option ℕ
  pub merkle_root : Option Str
  pub compression : Option Str
  pub chunk_count : Option ℕ
  pub chunks : Option (List ChunkDict)

infixl 5 ◌>>=◌
abbrev pub ◌>>=◌ {ℓ κ} : {A : Type ℓ} {B : Type κ} → Option A → (A → Option B) → Option B
none >>= f = none
some a >>= f = f a

unfoldable pub chunk_to_dict : ChunkInfo → ChunkDict
chunk_to_dict c = record {
  index = some c.index;
  chunk_hash = some c.chunk_hash;
  size = some c.size;
  encrypted = some c.encrypted;
}

unfoldable pub to_dict : FileManifest → ManifestDict
unfolding chunk_to_dict
to_dict m = record {
  version = some 2;
  original_filename = some m.original_filename;
  original_size = some m.original_size;
  file_hash = some m.file_hash;
  chunk_size = some m.chunk_size;
  merkle_root = some m.merkle_root;
  compression = some m.compression;
  chunk_count = some (length m.chunks);
  chunks = some (map chunk_to_dict m.chunks);
}

-- `none` is the `KeyError` of a missing key.
unfoldable pub chunk_from_dict : ChunkDict → Option ChunkInfo
chunk_from_dict c = do
  i ← c.index
  h ← c.chunk_hash
  n ← c.size
  some (record { index = i; chunk_hash = h; size = n; encrypted = Option.get_or c.encrypted false })

unfoldable pub chunks_from_dicts : List ChunkDict → Option (List ChunkInfo)
unfolding chunk_from_dict
chunks_from_dicts [] = some []
chunks_from_dicts (d ∷ ds) = do c ← chunk_from_dict d; cs ← chunks_from_dicts ds; some (c ∷ cs)

-- `not l`, on a list
abbrev pub is_empty {ℓ} : {A : Type ℓ} → List A → Bool
is_empty [] = true
is_empty (x ∷ l) = false

abbrev pub hashes : FileManifest → List Str
hashes m = map (λ c. c.chunk_hash) m.chunks

module _ (sha256_hash : Bytes → Str) where
  -- A manifest from before the Merkle trees gets its root from the chunks.
  unfoldable pub fill_root : FileManifest → FileManifest
  fill_root m =
      if is_empty m.merkle_root && not (is_empty m.chunks)
      then record m { merkle_root = compute_merkle_root sha256_hash (hashes m) }
      else m

  unfoldable pub from_dict : ManifestDict → Option FileManifest
  unfolding chunks_from_dicts fill_root
  from_dict d = do
    name ← d.original_filename
    size ← d.original_size
    hash ← d.file_hash
    cs ← chunks_from_dicts (Option.get_or d.chunks [])
    some (
        fill_root (record {
          original_filename = name;
          original_size = size;
          file_hash = hash;
          chunk_size = Option.get_or d.chunk_size default_chunk_size;
          merkle_root = Option.get_or d.merkle_root [];
          compression = Option.get_or d.compression [];
          chunks = cs;
        }))

  unfoldable pub get_merkle_proof : FileManifest → ℕ → List ProofStep
  get_merkle_proof m index = compute_merkle_proof sha256_hash (hashes m) index

-- A negative index is refused like one past the end; here an index is a natural number.
unfoldable pub verify_chunk : FileManifest → ℕ → Str → Bool
verify_chunk m index chunk_data_hash = elim (get_elem? m.chunks index) [
  | none ↦ false
  | some c ↦ str_eq c.chunk_hash chunk_data_hash
]
