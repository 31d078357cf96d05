-- ===== src/Routes/Upload.antt =====
-- `upload_file` of backend/api/routes.py.
use distri_store.Prelude.{
  ℕ, ◌+◌, Option, some, List, [], ◌∷◌, ◌++◌, ◌==◌, Bool, not, Str, Bytes, length, if◌then◌else◌,
}
use distri_store.Prelude.Dict.{Dict}
use distri_store.Manifest.{FileManifest, ManifestDict, is_empty, to_dict}
use distri_store.Crypto.{ok, err, Primitives}
use distri_store.Chunker.{get_optimal_chunk_size, chunk_file, zip}
use distri_store.Local
use distri_store.Local.{LocalStore}
use distri_store.Node.{PeerInfo, get_alive_peers}
use distri_store.Replicate.{save_all}
use distri_store.Replication.{Links, World, Outcome, replicate_chunks}
use distri_store.Routes.{server_error, internal_error, Response, sent, raised}

-- The name of the temporary file, `Path(tmp_path).name`: what follows the last slash.
unfoldable pub last_part : Str → Str → Str
last_part seen [] = seen
last_part seen (c ∷ cs) = last_part (if c == 47 then [] else seen ++ c ∷ []) cs

abbrev pub path_name : Str → Str
path_name filename = last_part [] filename

-- The response to an upload, but for the ratio of the sizes.
pub record Uploaded : Type 0 where
  pub file_hash : Str
  pub filename : Str
  pub size : ℕ
  pub compressed_size : ℕ
  pub compression : Str
  pub chunk_count : ℕ
  pub manifest : ManifestDict
  pub replication : Dict Outcome

unfoldable pub total_length : List Bytes → ℕ
total_length [] = 0
total_length (c ∷ cs) = length c + total_length cs

module _ (p : Primitives) (score : Dict PeerInfo → PeerInfo → ℕ) (int16 : Str → Option ℕ)
    (links : Str → Links) where
  -- What follows the chunking: saving, the manifest, and replication with a factor of 3.
  unfoldable pub store_upload : ℕ → FileManifest → List Bytes → World → World × Uploaded
  unfolding total_length
  store_upload now manifest chunks w =
      let (store, node) = save_all now (zip manifest.chunks chunks) w.store w.node in
      let saved = record w {
        store = Local.save_manifest manifest.file_hash (to_dict manifest) store;
        node = node;
      } in
      let replicated : World × Dict Outcome =
        if is_empty (get_alive_peers now 15 node)
        then (saved, [])
        else replicate_chunks score int16 now 3 links manifest chunks saved in
      (
        replicated.0,
        record {
          file_hash = manifest.file_hash;
          filename = manifest.original_filename;
          size = manifest.original_size;
          compressed_size = total_length chunks;
          compression = manifest.compression;
          chunk_count = length manifest.chunks;
          manifest = to_dict manifest;
          replication = replicated.1;
        },
      )

  -- `writes` says under which file names, joined to the new temporary directory, a file can be
  -- written there: a name in a missing directory, for one, cannot.
  unfoldable pub upload_file :
      (Str → Bool) → Bytes → (ℕ → Bytes) → ℕ → Str → Bytes → Str → World → World × Response Uploaded
  unfolding store_upload get_optimal_chunk_size last_part
  upload_file writes random nonces now filename content password w =
      if not (writes filename)
      then (w, raised internal_error)
      else elim (chunk_file p random nonces (path_name filename) (some content)
          (get_optimal_chunk_size (length content)) password) [
            | err e ↦ (w, raised (server_error e))
            | ok (manifest, chunks) ↦
                let (after, report) = store_upload now manifest chunks w in (after, sent report)
          ]
