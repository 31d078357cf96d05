-- ===== src/Store.antt =====
-- backend/storage: the database of manifests and peers (db.py). A table is a dictionary by its
-- primary key; the JSON column of the chunks is the list that `json.loads` gives back.
pub mod Manifests
mod Tests
use mathlib.Core.Option
use distri_store.Prelude.{ℕ, Option, none, some, List, [], ◌∷◌, ◌++◌, map, Str}
use distri_store.Prelude.Dict
use distri_store.Prelude.Dict.{Dict}
use distri_store.Manifest.{ChunkDict, ManifestDict}

pub record ManifestRow : Type 0 where
  pub file_hash : Str
  pub filename : Str
  pub total_size : ℕ
  pub merkle_root : Str
  pub chunks_json : List ChunkDict
  pub compression : Str

-- The health score and the time are numbers that are stored and given back.
pub record PeerRow : Type 0 where
  pub node_id : Str
  pub ip : Str
  pub tcp_port : ℕ
  pub api_port : ℕ
  pub name : Str
  pub health_score : ℕ
  pub last_seen : ℕ

pub record NodeDatabase : Type 0 where
  pub peers : Dict PeerRow
  pub manifests : Dict ManifestRow

-- `INSERT OR REPLACE`: a row with the same key is deleted, and the new one goes to the end.
abbrev pub insert_or_replace {ℓ} : {V : Type ℓ} → Dict V → Str → V → Dict V
insert_or_replace d k v = Dict.put (Dict.remove d k) k v

-- The values of the statement, with the defaults of `manifest_dict.get(…)`.
unfoldable pub row_of : Str → ManifestDict → ManifestRow
row_of file_hash d = record {
  file_hash = file_hash;
  filename = Option.get_or d.original_filename [];
  total_size = Option.get_or d.original_size 0;
  merkle_root = Option.get_or d.merkle_root [];
  chunks_json = Option.get_or d.chunks [];
  compression = Option.get_or d.compression [];
}

unfoldable pub save_manifest : Str → ManifestDict → NodeDatabase → NodeDatabase
unfolding row_of
save_manifest file_hash d db = record db {
  manifests = insert_or_replace db.manifests file_hash (row_of file_hash d);
}

-- A row as a dictionary: there is no version, no chunk size and no number of chunks in it.
unfoldable pub manifest_of_row : ManifestRow → ManifestDict
manifest_of_row r = record {
  version = none;
  original_filename = some r.filename;
  original_size = some r.total_size;
  file_hash = some r.file_hash;
  chunk_size = none;
  merkle_root = some r.merkle_root;
  compression = some r.compression;
  chunk_count = none;
  chunks = some r.chunks_json;
}

unfoldable pub get_manifest : Str → NodeDatabase → Option ManifestDict
unfolding manifest_of_row
get_manifest file_hash db = Option.map manifest_of_row (Dict.get db.manifests file_hash)

unfoldable pub get_all_manifests : NodeDatabase → List ManifestDict
unfolding manifest_of_row
get_all_manifests db = map (λ e. manifest_of_row e.1) db.manifests

unfoldable pub upsert_peer : PeerRow → NodeDatabase → NodeDatabase
upsert_peer row db = record db { peers = insert_or_replace db.peers row.node_id row }

unfoldable pub get_all_peers : NodeDatabase → List PeerRow
get_all_peers db = map (λ e. e.1) db.peers
