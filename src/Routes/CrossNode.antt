-- ===== src/Routes/CrossNode.antt =====
-- A file that is uploaded to one node and downloaded from another.
use distri_store.Prelude.{
  Bool, true, ℕ, ◌≡◌, ◌⊎◌, refl, sym, ap, ◌∙◌, Option, none, some, inl, inr, ◌∷◌, map, Str, Bytes,
  length,
}
use distri_store.Prelude.Dict.{Dict}
use distri_store.Merkle.Binding.{Collision}
use distri_store.Manifest.{ManifestDict}
use distri_store.Crypto.{salt_size, nonce_size, Primitives, PrimitiveLaws}
use distri_store.Chunker.{Sealed}
use distri_store.Chunker.Stream.{streaming_file_hash_lem}
use distri_store.Local.{LocalStore, load_chunk, load_manifest}
use distri_store.Local.Contents.{HoldsAll-map}
use distri_store.Node.{PeerInfo}
use distri_store.Replication.{Links, World}
use distri_store.Pipeline.Order.{entries}
use distri_store.Routes.{
  Swarm, Response, sent, raised, ask, load_or_fetch_manifest, get_manifest, get_chunk,
}
use distri_store.Routes.Download.{download_file}
use distri_store.Routes.Upload.{Uploaded, path_name, store_upload, upload_file}
use distri_store.Routes.Fetch.{answer}
use distri_store.Routes.Saved.{stored_dict}
use distri_store.Local
use distri_store.Routes.EndToEnd.{upload_manifest, sealed, uploaded, download_file_lem}

-- What the caller of a route gets with a status of 200.
abbrev pub answer_of {ℓ} : {A : Type ℓ} → Response A → Option A
answer_of (sent a) = some a
answer_of (raised e) = none

get_manifest-found :
    (h : Str) (s : LocalStore) (d : ManifestDict)
    → load_manifest h s ≡ some d
    → answer_of (get_manifest h s) ≡ some d
unfolding get_manifest
get_manifest-found h s d e = rw (get_manifest, e) refl

get_chunk-found :
    (h : Str) (s : LocalStore) (b : Bytes)
    → load_chunk h s ≡ some b
    → answer_of (get_chunk h s) ≡ some b
unfolding get_chunk
get_chunk-found h s b e = rw (get_chunk, e) refl

module _ (swarm : Swarm) (nid : Str) (peer : PeerInfo) (peers : Dict PeerInfo) where
  fetches_manifest :
      (h : Str) (d : ManifestDict) (s : LocalStore)
      → swarm.peer_manifest peer h ≡ some d
      → load_manifest h s ≡ none
      → load_or_fetch_manifest swarm ((nid, peer) ∷ peers) h s ≡ (Local.save_manifest h d s, some d)
  unfolding load_or_fetch_manifest ask
  fetches_manifest h d s gives gone = rw (load_or_fetch_manifest, gone, gives) refl

  fetches_chunk :
      (h : Str) (b : Bytes) (s : LocalStore)
      → swarm.peer_chunk peer h ≡ some b
      → load_chunk h s ≡ none
      → answer swarm ((nid, peer) ∷ peers) s h ≡ some b
  unfolding ask
  fetches_chunk h b s gives gone = rw (answer, gone, gives) refl

load_chunk-save_manifest :
    (h k : Str) (d : ManifestDict) (s : LocalStore)
    → load_chunk h (Local.save_manifest k d s) ≡ load_chunk h s
unfolding load_chunk Local.save_manifest
load_chunk-save_manifest h k d s = refl

-- After an upload, with or without a password, under a file name under which the temporary file can
-- be written: a node that has stored nothing and whose first alive peer answers by the routes of the
-- node of the upload, asked for the file hash under the same password, sends the file under what
-- follows the last slash of its name. Or SHA-256 has a collision. (The salt has 16 bytes, and the
-- nonces have 12.)
pub download_file_from_peer :
    (p : Primitives) (laws : PrimitiveLaws p) (score : Dict PeerInfo → PeerInfo → ℕ)
    (int16 : Str → Option ℕ) (links : Str → Links) (writes : Str → Bool) (random : Bytes)
    (nonces : ℕ → Bytes) (now : ℕ) (name : Str) (content : Bytes) (password : Str) (w after : World)
    (response : Response Uploaded) (swarm : Swarm) (nid : Str) (peer : PeerInfo)
    (peers : Dict PeerInfo) (later : ℕ) (other : LocalStore)
    → length random ≡ salt_size
    → ((i : ℕ) → length (nonces i) ≡ nonce_size)
    → writes name ≡ true
    → upload_file p score int16 links writes random nonces now name content password w
      ≡ (after, response)
    → ((h : Str) → swarm.peer_manifest peer h ≡ answer_of (get_manifest h after.store))
    → ((h : Str) → swarm.peer_chunk peer h ≡ answer_of (get_chunk h after.store))
    → ((h : Str) → load_manifest h other ≡ none)
    → ((h : Str) → load_chunk h other ≡ none)
    → ((download_file p swarm ((nid, peer) ∷ peers) later (p.sha256_hash content) password other).1
        ≡ sent (record { filename = path_name name; body = content }))
      ⊎ Collision p.sha256_hash
download_file_from_peer p laws score int16 links writes random nonces now name content password w
      after response swarm nid peer peers later other hr hn written done gives_manifest gives_chunk
      no_manifest no_chunk =
    let (uploads, stored) =
      uploaded p laws random nonces password hr hn score int16 links writes now name content w
        written in
    let m = upload_manifest p laws random nonces password hr hn (path_name name) content in
    let l = sealed p laws random nonces password hr hn m.chunk_size content in
    let σ = (store_upload p score int16 links now m (map (λ (s : Sealed). s.bytes) l) w).0.store in
    let same : after.store ≡ σ = ap (λ r. r.0.store) (sym done ∙ uploads) in
    let d = stored_dict m in
    elim stored.held [
      | inr bad ↦ inr bad
      | inl held ↦
          let manifest =
            fetches_manifest swarm nid peer peers m.file_hash d other
              (gives_manifest m.file_hash
                ∙ (ap (λ s. answer_of (get_manifest m.file_hash s)) same
                    ∙ get_manifest-found m.file_hash σ d stored.listed))
              (no_manifest m.file_hash) in
          let loaded = Local.save_manifest m.file_hash d other in
          let chunks =
            HoldsAll-map (λ h. load_chunk h σ) (answer swarm ((nid, peer) ∷ peers) loaded)
              (entries l)
              (λ h b found.
                fetches_chunk swarm nid peer peers h b loaded
                  (gives_chunk h
                    ∙ (ap (λ s. answer_of (get_chunk h s)) same ∙ get_chunk-found h σ b found))
                  (load_chunk-save_manifest h m.file_hash d other ∙ no_chunk h))
              held in
          inl (
            ap (λ h. (download_file p swarm ((nid, peer) ∷ peers) later h password other).1)
              (sym (streaming_file_hash_lem p content))
            ∙ download_file_lem p laws random nonces password hr hn swarm ((nid, peer) ∷ peers)
                later (path_name name) content other loaded (ap (λ r. r.1) manifest)
                (ap (λ r. r.0) manifest) chunks)
    ]
