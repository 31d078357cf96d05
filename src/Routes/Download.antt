-- ===== src/Routes/Download.antt =====
-- `download_file` and `preview_file` of backend/api/routes.py.
use distri_store.Prelude.{
  ℕ, ◌+◌, Bool, true, false, ◌&&◌, ◌||◌, Option, none, some, List, [], ◌∷◌, Str, Bytes, length,
  take, if◌then◌else◌,
}
use distri_store.Prelude.Dict.{Dict}
use distri_store.Prelude.Sort.{sort_by}
use distri_store.Manifest.{ChunkInfo, FileManifest, is_empty, from_dict}
use distri_store.Crypto.{
  Error, decryption_failed, too_short, unsupported_version, chunk_hash_mismatch,
  merkle_root_mismatch, integrity_check_failed, Result, ok, err, Primitives,
}
use distri_store.Chunker.{merge_chunks_to_disk}
use distri_store.Local.{LocalStore}
use distri_store.Node.{PeerInfo}
use distri_store.Pipeline.{by_index, pipeline_stream_file}
use distri_store.Routes.{
  Swarm, file_missing, password_required, bad_request, server_error, malformed_manifest, Response,
  sent, raised, FileResponse, StreamingResponse, load_or_fetch_manifest, load_or_fetch_chunk,
  gather_chunks,
}

-- `any(info.encrypted for info in manifest.chunks)`
unfoldable pub any_encrypted : List ChunkInfo → Bool
any_encrypted [] = false
any_encrypted (info ∷ infos) = info.encrypted || any_encrypted infos

-- The failures that are a `ValueError`: not those of zstd.
abbrev pub is_value_error : Error → Bool
is_value_error decryption_failed = true
is_value_error (too_short n) = true
is_value_error (unsupported_version n) = true
is_value_error (chunk_hash_mismatch n) = true
is_value_error merkle_root_mismatch = true
is_value_error integrity_check_failed = true
is_value_error _ = false

-- After the merge into the temporary file: it is deleted with a `ValueError` and after the response
-- is sent, and stays with another exception.
abbrev pub respond :
    FileManifest → LocalStore → Option Bytes × Result {0} Unit → LocalStore × Response FileResponse
respond m store (file, ok _) = (
  store,
  sent (record { filename = m.original_filename; body = elim file [ none ↦ [] | some b ↦ b ] }),
)
respond m store (file, err e) = if is_value_error e then (store, raised (bad_request e)) else (
  record store { other_bytes = store.other_bytes + length (elim file [ none ↦ [] | some b ↦ b ]) },
  raised (server_error e),
)

module _ (p : Primitives) where
  -- The second half of a download, with the manifest at hand.
  unfoldable pub serve_manifest :
      Swarm
      → Dict PeerInfo
      → ℕ
      → Str
      → FileManifest
      → LocalStore
      → LocalStore × Response FileResponse
  unfolding gather_chunks any_encrypted
  serve_manifest swarm peers now password m store =
      let (after, gathered) = gather_chunks swarm peers now m.chunks store in
      elim gathered [
        | raised e ↦ (after, raised e)
        | sent chunks ↦
            if any_encrypted m.chunks && is_empty password
            then (after, raised password_required)
            else respond m after (merge_chunks_to_disk p m chunks password)
      ]

  unfoldable pub download_file :
      Swarm → Dict PeerInfo → ℕ → Str → Str → LocalStore → LocalStore × Response FileResponse
  unfolding load_or_fetch_manifest serve_manifest
  download_file swarm peers now file_hash password store =
      let (loaded, found) = load_or_fetch_manifest swarm peers file_hash store in
      elim found [
        | none ↦ (loaded, raised (file_missing file_hash))
        | some d ↦ elim (from_dict p.sha256_hash d) [
          | none ↦ (loaded, raised malformed_manifest)
          | some m ↦ serve_manifest swarm peers now password m loaded
        ]
      ]

  -- What the loader of a preview returns, and the store after it has loaded some chunks.
  abbrev pub peek_chunk : Swarm → Dict PeerInfo → ℕ → LocalStore → Str → Option Bytes
  peek_chunk swarm peers now store chunk_hash =
      (load_or_fetch_chunk swarm peers now chunk_hash store).1

  abbrev pub load_each : Swarm → Dict PeerInfo → ℕ → List ChunkInfo → LocalStore → LocalStore
  load_each swarm peers now [] store = store
  load_each swarm peers now (info ∷ infos) store =
      load_each swarm peers now infos (load_or_fetch_chunk swarm peers now info.chunk_hash store).0

  -- The stream loads one chunk more than it yields when an exception ends it.
  unfoldable pub preview_file :
      Swarm → Dict PeerInfo → ℕ → Str → Str → LocalStore → LocalStore × Response StreamingResponse
  unfolding load_or_fetch_manifest load_or_fetch_chunk any_encrypted
  preview_file swarm peers now file_hash password store =
      let (loaded, found) = load_or_fetch_manifest swarm peers file_hash store in
      elim found [
        | none ↦ (loaded, raised (file_missing file_hash))
        | some d ↦ elim (from_dict p.sha256_hash d) [
          | none ↦ (loaded, raised malformed_manifest)
          | some m ↦
              let (yielded, ended) =
                pipeline_stream_file p m (peek_chunk swarm peers now loaded) password in
              let seen = take (length yielded + 1) (sort_by by_index m.chunks) in
              if any_encrypted m.chunks && is_empty password
              then (loaded, raised password_required)
              else (
                load_each swarm peers now seen loaded,
                sent (record {
                  inline_filename = m.original_filename;
                  content_length = m.original_size;
                  blocks = yielded;
                  ended_by = ended;
                }),
              )
        ]
      ]
