-- ===== src/Local.antt =====
-- backend/storage/local_store.py: the chunk files of a node. A file is recorded under its chunk
-- hash, with its last access as the file system reports it; `other_bytes` is the size of the
-- other files of the folder.
pub mod Contents
pub mod Eviction
pub mod Monitor
mod Tests
use mathlib.Core.Option
use distri_store.Prelude.{
  ℕ, ◌+◌, Bool, true, false, Option, none, some, List, [], ◌∷◌, Str, Bytes, length, leb,
  if◌then◌else◌,
}
use distri_store.Prelude.Dict
use distri_store.Prelude.Dict.{Dict}
use distri_store.Prelude.Sort.{sort_by}
use distri_store.Manifest.{ManifestDict}
use distri_store.Store
use distri_store.Store.{NodeDatabase}

pub record ChunkFile : Type 0 where
  pub body : Bytes
  pub accessed : ℕ

pub record LocalStore : Type 0 where
  pub files : Dict ChunkFile
  pub other_bytes : ℕ
  pub db : NodeDatabase

unfoldable pub save_chunk : ℕ → Str → Bytes → LocalStore → LocalStore
save_chunk now chunk_hash body s = record s {
  files = Dict.put s.files chunk_hash (record { body = body; accessed = now });
}

-- What the file system notes of the access is its own: `accessed` is whatever it reports.
unfoldable pub load_chunk : Str → LocalStore → Option Bytes
load_chunk chunk_hash s = Option.map (λ f. f.body) (Dict.get s.files chunk_hash)

unfoldable pub has_chunk : Str → LocalStore → Bool
has_chunk chunk_hash s = elim (Dict.get s.files chunk_hash) [ none ↦ false | some f ↦ true ]

unfoldable pub delete_chunk : Str → LocalStore → LocalStore × Bool
delete_chunk chunk_hash s = elim (Dict.get s.files chunk_hash) [
  | none ↦ (s, false)
  | some f ↦ (record s { files = Dict.remove s.files chunk_hash }, true)
]

unfoldable pub list_chunks : LocalStore → List Str
list_chunks s = Dict.keys s.files

unfoldable pub save_manifest : Str → ManifestDict → LocalStore → LocalStore
save_manifest file_hash d s = record s { db = Store.save_manifest file_hash d s.db }

unfoldable pub load_manifest : Str → LocalStore → Option ManifestDict
load_manifest file_hash s = Store.get_manifest file_hash s.db

unfoldable pub get_all_manifests : LocalStore → List ManifestDict
get_all_manifests s = Store.get_all_manifests s.db

unfoldable pub chunk_bytes : Dict ChunkFile → ℕ
chunk_bytes [] = 0
chunk_bytes ((h, f) ∷ files) = length f.body + chunk_bytes files

unfoldable pub get_storage_size : LocalStore → ℕ
unfolding chunk_bytes
get_storage_size s = chunk_bytes s.files + s.other_bytes

abbrev pub older : Str × ChunkFile → Str × ChunkFile → Bool
older a b = leb a.1.accessed b.1.accessed

-- The loop over the files, the oldest first; `stuck` are those that cannot be deleted.
unfoldable pub evict_loop :
    (Str → Bool) → ℕ → List (Str × ChunkFile) → ℕ → Dict ChunkFile → ℕ × Dict ChunkFile
evict_loop stuck target [] freed files = (freed, files)
evict_loop stuck target ((h, f) ∷ rest) freed files =
    let skip = evict_loop stuck target rest freed files in
    let go = evict_loop stuck target rest (freed + length f.body) (Dict.remove files h) in
    if leb target freed then (freed, files) else if stuck h then skip else go

unfoldable pub evict_oldest_chunks : (Str → Bool) → ℕ → LocalStore → LocalStore × ℕ
unfolding evict_loop
evict_oldest_chunks stuck target_bytes_to_free s =
    let (freed, left) = evict_loop stuck target_bytes_to_free (sort_by older s.files) 0 s.files in
    (record s { files = left }, freed)
