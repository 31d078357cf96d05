-- ===== src/Routes/EndToEnd.antt =====
-- A file that is uploaded, and downloaded from the node or from another one.
use distri_store.Prelude.{
  Bool, true, ℕ, ◌<◌, ◌≡◌, ◌⊎◌, refl, ap, ◌∙◌, false, ◌&&◌, Option, none, some, inl, inr, List, [],
  ◌∷◌, map, Str, Bytes, codes, length, Bool-cases, arith,
}
use distri_store.Prelude.Dict.{Dict}
use distri_store.Merkle.{compute_merkle_root}
use distri_store.Merkle.Binding.{Collision}
use distri_store.Manifest.{FileManifest, default_chunk_size, is_empty}
use distri_store.Crypto.{salt_size, nonce_size, Primitives, PrimitiveLaws}
use distri_store.Chunker.{
  get_optimal_chunk_size, stream_chunks, Sealed, hash_of, streaming_file_hash, seal_chunk, keys_of,
  chunk_file,
}
use distri_store.Chunker.Stream.{streaming_file_hash_lem}
use distri_store.Chunker.RoundTrip.{zip-map}
use distri_store.Chunker.ToDisk.{merges_to_disk}
use distri_store.Local.{LocalStore}
use distri_store.Local.Contents.{HoldsAll, HoldsAll-map}
use distri_store.Node.{PeerInfo}
use distri_store.Replication.{Links, World}
use distri_store.Pipeline.Order.{entries, infos, entries-AllNamed}
use distri_store.Routes.{Swarm, sent, load_or_fetch_manifest, gather_chunks}
use distri_store.Routes.Download.{any_encrypted, serve_manifest, download_file}
use distri_store.Routes.Upload.{Uploaded, path_name, store_upload, upload_file}
use distri_store.Routes.Fetch.{answer, answer-found, gather_chunks_lem}
use distri_store.Routes.Saved.{
  stored_dict, read_back, from_dict-stored_dict, fill_root-kept, IsStored, store_upload-IsStored,
}

get_optimal_chunk_size_pos : (n : ℕ) → 0 < get_optimal_chunk_size n
unfolding get_optimal_chunk_size
get_optimal_chunk_size_pos n = ground arith

module _ (p : Primitives) (laws : PrimitiveLaws p) (random : Bytes) (nonces : ℕ → Bytes)
    (password : Str) (hr : length random ≡ salt_size)
    (hn : (i : ℕ) → length (nonces i) ≡ nonce_size) where
  abbrev pub sealed : ℕ → Bytes → List Sealed
  sealed n file = map (seal_chunk p (keys_of p random password) nonces) (stream_chunks n file)

  any_encrypted-plain :
      (l : List (ℕ × Bytes)) → any_encrypted (infos (map (seal_chunk p none nonces) l)) ≡ false
  unfolding any_encrypted seal_chunk
  any_encrypted-plain [] = refl
  any_encrypted-plain (c ∷ l) = any_encrypted-plain l

  -- The password that encrypted is there when one is needed.
  unlocked :
      (n : ℕ) (file : Bytes) → (any_encrypted (infos (sealed n file)) && is_empty password) ≡ false
  unlocked n file = elim (Bool-cases (is_empty password)) [
    | inr e ↦ ground (arith, e)
    | inl e ↦
        let no_keys : keys_of p random password ≡ none = rw e refl in
        let plain : any_encrypted (infos (sealed n file)) ≡ false =
          ap (λ keys. any_encrypted (infos (map (seal_chunk p keys nonces) (stream_chunks n file))))
            no_keys
          ∙ any_encrypted-plain (stream_chunks n file) in
        rw plain refl
  ]

  module _ (swarm : Swarm) (peers : Dict PeerInfo) (now n : ℕ) (hn0 : 0 < n) (file : Bytes)
      (m : FileManifest) (zstd : m.compression ≡ codes "zstd")
      (hashed : m.file_hash ≡ p.sha256_hash file) (listed : m.chunks ≡ infos (sealed n file)) where
    serve_manifest_lem :
        (store : LocalStore)
        → HoldsAll (answer swarm peers store) (entries (sealed n file))
        → (serve_manifest p swarm peers now password m store).1
          ≡ sent (record { filename = m.original_filename; body = file })
    unfolding serve_manifest
    serve_manifest_lem store h =
        let gathered : (gather_chunks swarm peers now m.chunks store).1
            ≡ sent (map (λ (s : Sealed). s.bytes) (sealed n file)) =
          ap (λ cs. (gather_chunks swarm peers now cs store).1) listed
          ∙ gather_chunks_lem swarm peers now (sealed n file) store h in
        let unlock : (any_encrypted m.chunks && is_empty password) ≡ false =
          ap (λ cs. any_encrypted cs && is_empty password) listed ∙ unlocked n file in
        let merged =
          merges_to_disk p laws random nonces password hr hn m file n hn0 zstd hashed listed in
        rw (serve_manifest, gathered, unlock, merged) refl

  -- The manifest that an upload makes.
  abbrev pub upload_manifest : Str → Bytes → FileManifest
  upload_manifest name content =
      let n = get_optimal_chunk_size (length content) in
      record {
        original_filename = name;
        original_size = length content;
        file_hash = streaming_file_hash p content;
        chunk_size = n;
        merkle_root = compute_merkle_root p.sha256_hash (map hash_of (sealed n content));
        compression = codes "zstd";
        chunks = infos (sealed n content);
      }

  -- A node that gets this manifest and all chunks, from its store or from its peers, serves the file.
  pub download_file_lem :
      (swarm : Swarm) (peers : Dict PeerInfo) (now : ℕ) (name : Str) (content : Bytes)
      (store loaded : LocalStore)
      → let m = upload_manifest name content in
        (load_or_fetch_manifest swarm peers m.file_hash store).1 ≡ some (stored_dict m)
        → (load_or_fetch_manifest swarm peers m.file_hash store).0 ≡ loaded
        → HoldsAll (answer swarm peers loaded) (entries (sealed m.chunk_size content))
        → (download_file p swarm peers now m.file_hash password store).1
          ≡ sent (record { filename = name; body = content })
  unfolding download_file
  download_file_lem swarm peers now name content store loaded found at h =
      let m = upload_manifest name content in
      let n = get_optimal_chunk_size (length content) in
      let kept = fill_root-kept p.sha256_hash (record m { chunk_size = default_chunk_size }) in
      let served =
        serve_manifest_lem swarm peers now n (get_optimal_chunk_size_pos (length content)) content
          (read_back p.sha256_hash m) kept.1 (kept.2 ∙ streaming_file_hash_lem p content) kept.0
          loaded h in
      let named = kept.3 in
      rw (download_file, found, from_dict-stored_dict p.sha256_hash m, at)
        (served ∙ ap (λ (x : Str). sent (record { filename = x; body = content })) named)

  pub uploaded :
      (score : Dict PeerInfo → PeerInfo → ℕ) (int16 : Str → Option ℕ) (links : Str → Links)
      (writes : Str → Bool) (now : ℕ) (name : Str) (content : Bytes) (w : World)
      → writes name ≡ true
      → let m = upload_manifest (path_name name) content in
        let chunks = map (λ (s : Sealed). s.bytes) (sealed m.chunk_size content) in
        let (after, report) = store_upload p score int16 links now m chunks w in
        (upload_file p score int16 links writes random nonces now name content password w
          ≡ (after, sent report))
        × IsStored p.sha256_hash m (sealed m.chunk_size content) after.store
  unfolding upload_file chunk_file
  uploaded score int16 links writes now name content w written =
      let m = upload_manifest (path_name name) content in
      let l = sealed m.chunk_size content in
      (
        rw (upload_file, written) refl,
        store_upload-IsStored p score int16 links now m l (zip-map l)
            (entries-AllNamed p (keys_of p random password) nonces
              (stream_chunks m.chunk_size content))
            w,
      )

-- For a salt of 16 bytes, nonces of 12 and a file name under which the temporary file can be
-- written: after an upload, with or without a password and whatever the replication to the peers
-- comes to, a download from this node by the file hash that the upload reports, under the same
-- password, sends the file under what follows the last slash of its name, whatever peers there are.
-- Or SHA-256 has a collision.
pub download_file-upload_file :
    (p : Primitives) (laws : PrimitiveLaws p) (score : Dict PeerInfo → PeerInfo → ℕ)
    (int16 : Str → Option ℕ) (links : Str → Links) (writes : Str → Bool) (random : Bytes)
    (nonces : ℕ → Bytes) (now : ℕ) (name : Str) (content : Bytes) (password : Str) (w : World)
    (swarm : Swarm) (peers : Dict PeerInfo) (later : ℕ)
    → length random ≡ salt_size
    → ((i : ℕ) → length (nonces i) ≡ nonce_size)
    → writes name ≡ true
    → let (after, response) =
        upload_file p score int16 links writes random nonces now name content password w in
      ((report : Uploaded) × (response ≡ sent report)
        × ((download_file p swarm peers later report.file_hash password after.store).1
            ≡ sent (record { filename = path_name name; body = content })))
      ⊎ Collision p.sha256_hash
unfolding load_or_fetch_manifest store_upload
download_file-upload_file p laws score int16 links writes random nonces now name content password w
      swarm peers later hr hn written =
    let (done, stored) =
      uploaded p laws random nonces password hr hn score int16 links writes now name content w
        written in
    let σ =
      (store_upload p score int16 links now
        (upload_manifest p laws random nonces password hr hn (path_name name) content)
        (map (λ (s : Sealed). s.bytes)
          (sealed p laws random nonces password hr hn (get_optimal_chunk_size (length content))
            content))
        w).0.store in
    rw done (elim stored.held [
      | inr bad ↦ inr bad
      | inl held ↦ inl (
        _,
        refl,
        download_file_lem p laws random nonces password hr hn swarm peers later (path_name name)
            content σ σ (rw (load_or_fetch_manifest, stored.listed) refl)
            (rw (load_or_fetch_manifest, stored.listed) refl)
            (HoldsAll-map _ (answer swarm peers _) _ (answer-found swarm peers _) held),
      )
    ])
