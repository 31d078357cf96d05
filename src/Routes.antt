-- ===== src/Routes.antt =====
-- backend/api/routes.py: upload, download and preview, and the routes by which peers fetch manifests
-- and chunks. The node and the store are initialised. What a peer's API answers is a function:
-- `some` is a status of 200 with its content, which for a manifest is not the empty dictionary;
-- `none` is any other status, a failure of the connection or a time-out.
pub mod Download
pub mod Upload
pub mod Fetch
pub mod Saved
pub mod EndToEnd
pub mod CrossNode
pub mod Checks
pub mod Kept
pub mod Repeat
pub mod Chat
mod Tests
use distri_store.Prelude.{
  ℕ, ◌+◌, Bool, true, false, ◌&&◌, ◌||◌, not, Option, none, some, List, [], ◌∷◌, ◌++◌, map, Str,
  Bytes, length, take, if◌then◌else◌,
}
use distri_store.Prelude.Dict
use distri_store.Prelude.Dict.{Dict}
use distri_store.Prelude.Sort.{sort_by}
use distri_store.Manifest.{ChunkInfo, FileManifest, ManifestDict, is_empty, to_dict, from_dict}
use distri_store.Crypto.{
  Error, decryption_failed, too_short, unsupported_version, chunk_hash_mismatch,
  merkle_root_mismatch, integrity_check_failed, Result, ok, err, Primitives,
}
use distri_store.Chunker.{get_optimal_chunk_size, chunk_file, merge_chunks_to_disk, zip}
use distri_store.Local
use distri_store.Local.{LocalStore}
use distri_store.Node.{PeerInfo, NodeState, get_alive_peers}
use distri_store.Replicate.{save_all}
use distri_store.Replication.{Links, World, Outcome, replicate_chunks}
use distri_store.Pipeline.{by_index, pipeline_stream_file}

pub record Swarm : Type 0 where
  pub peer_manifest : PeerInfo → Str → Option ManifestDict
  pub peer_chunk : PeerInfo → Str → Option Bytes

-- The exceptions that a route ends with. `malformed_manifest` is a `KeyError` of `from_dict`, and
-- `server_error` an exception that no handler catches: the status is 500.
pub data HttpError : Type 0 where
  file_missing : Str → HttpError
  chunk_missing : Str → HttpError
  password_required : HttpError
  bad_request : Error → HttpError
  server_error : Error → HttpError
  malformed_manifest : HttpError
  internal_error : HttpError

pub data Response {ℓ} (A : Type ℓ) : Type ℓ where
  sent : A → Response A
  raised : HttpError → Response A

pub record FileResponse : Type 0 where
  pub filename : Str
  pub body : Bytes

-- A preview: the blocks that are streamed, and the exception that ended the stream.
pub record StreamingResponse : Type 0 where
  pub inline_filename : Str
  pub content_length : ℕ
  pub blocks : List Bytes
  pub ended_by : Option Error

-- The loop over the peers, up to the first that answers.
unfoldable pub ask {ℓ} : {A : Type ℓ} → (PeerInfo → Option A) → Dict PeerInfo → Option A
ask fetch [] = none
ask fetch ((nid, peer) ∷ peers) = elim (fetch peer) [ some a ↦ some a | none ↦ ask fetch peers ]

unfoldable pub load_or_fetch_manifest :
    Swarm → Dict PeerInfo → Str → LocalStore → LocalStore × Option ManifestDict
unfolding ask
load_or_fetch_manifest swarm peers file_hash store = elim (Local.load_manifest file_hash store) [
  | some d ↦ (store, some d)
  | none ↦ elim (ask (λ peer. swarm.peer_manifest peer file_hash) peers) [
    | none ↦ (store, none)
    | some d ↦ (Local.save_manifest file_hash d store, some d)
  ]
]

-- The chunk loader: the local copy, or that of a peer, which is kept.
unfoldable pub load_or_fetch_chunk :
    Swarm → Dict PeerInfo → ℕ → Str → LocalStore → LocalStore × Option Bytes
unfolding ask
load_or_fetch_chunk swarm peers now chunk_hash store = elim (Local.load_chunk chunk_hash store) [
  | some body ↦ (store, some body)
  | none ↦ elim (ask (λ peer. swarm.peer_chunk peer chunk_hash) peers) [
    | none ↦ (store, none)
    | some body ↦ (Local.save_chunk now chunk_hash body store, some body)
  ]
]

-- The chunks of a manifest in its order.
unfoldable pub gather_chunks :
    Swarm → Dict PeerInfo → ℕ → List ChunkInfo → LocalStore → LocalStore × Response (List Bytes)
unfolding load_or_fetch_chunk
gather_chunks swarm peers now [] store = (store, sent [])
gather_chunks swarm peers now (info ∷ infos) store =
    let (loaded, found) = load_or_fetch_chunk swarm peers now info.chunk_hash store in
    let (after, rest) = gather_chunks swarm peers now infos loaded in
    elim found [
      | none ↦ (loaded, raised (chunk_missing info.chunk_hash))
      | some body ↦ (after, elim rest [ sent chunks ↦ sent (body ∷ chunks) | raised e ↦ raised e ])
    ]

-- `GET /manifest/…` and `GET /chunk/…`
unfoldable pub get_manifest : Str → LocalStore → Response ManifestDict
get_manifest file_hash store = elim (Local.load_manifest file_hash store) [
  | none ↦ raised (file_missing file_hash)
  | some d ↦ sent d
]

unfoldable pub get_chunk : Str → LocalStore → Response Bytes
get_chunk chunk_hash store = elim (Local.load_chunk chunk_hash store) [
  | none ↦ raised (chunk_missing chunk_hash)
  | some body ↦ sent body
]
