-- ===== src/Routes/Tests.antt =====
-- The routes, run on a small file and a few chat messages.
use distri_store.Prelude.{
  ℕ, ◌+◌, ◌≤◌, ◌≡◌, List, ◌⊎◌, refl, ap, false, true, false, Option, none, some, [], ◌∷◌, Str,
  Bytes, codes, length, arith, str_eq, if◌then◌else◌,
}
use distri_store.Prelude.Dict
use distri_store.Prelude.Distinct.{occurrences}
use distri_store.Merkle.Binding.{Collision}
use distri_store.Crypto.Tests.{toy, toy_laws, toy_salt, toy_nonce}
use distri_store.Local.{LocalStore, load_chunk, load_manifest}
use distri_store.Store
use distri_store.Node.{PeerInfo}
use distri_store.Replication.{Links, World}
use distri_store.Dht.{str_elem}
use distri_store.Routes.{Swarm, sent, get_manifest, get_chunk}
use distri_store.Routes.Download.{download_file}
use distri_store.Routes.Upload.{Uploaded, path_name, upload_file}
use distri_store.Routes.EndToEnd.{download_file-upload_file}
use distri_store.Manifest.{ManifestDict, from_dict}
use distri_store.Chunker.{merge_chunks_to_disk}
use distri_store.Prelude.Sort.{sort_by}
use distri_store.Routes.Checks.{download_file_checks}
use distri_store.Routes.Repeat.{is_settled, download_file_repeats}
use distri_store.Routes.CrossNode.{answer_of, download_file_from_peer}
use distri_store.Routes.Chat.{Chat, heard, typed, chat_run}
use distri_store.Routes.Chat.Gossip.{chat_run_once}

abbrev content : Bytes
content = 10 ∷ 20 ∷ 30 ∷ []

abbrev empty_store : LocalStore
empty_store = record { files = []; other_bytes = 0; db = record { peers = []; manifests = [] } }

abbrev peer : PeerInfo
peer = record {
  node_id = codes "p";
  ip = codes "10.0.0.2";
  tcp_port = 50001;
  name = codes "p";
  last_seen = 99;
  free_space = 5;
  uptime = 6;
  latency = 0;
  health_score = 7;
  api_port = 8888;
}

abbrev world : World
world = record {
  store = empty_store;
  node = record {
    node_id = codes "n";
    name = codes "n";
    tcp_port = 50001;
    start_time = 0;
    peers = (codes "p", peer) ∷ [];
    chunks = [];
    routing = [];
    db = none;
  };
  routing = [];
}

abbrev links : Str → Links
links h = record { connected = λ pid. true; connects = λ ip port. false; delivers = λ pid. false }

abbrev score : Dict.Dict PeerInfo → PeerInfo → ℕ
score peers p = p.uptime

abbrev int16 : Str → Option ℕ
int16 s = some (length s)

abbrev silent : Swarm
silent = record { peer_manifest = λ p h. none; peer_chunk = λ p h. none }

download_file-upload_file_example :
    let (after, response) =
      upload_file toy score int16 links
        (λ name. true)
        toy_salt
        (λ i. toy_nonce)
        100
        (codes "f")
        content
        (codes "key")
        world in
    ((report : Uploaded) × (response ≡ sent report)
      × ((download_file toy silent [] 200 report.file_hash (codes "key") after.store).1
          ≡ sent (record { filename = path_name (codes "f"); body = content })))
    ⊎ Collision toy.sha256_hash
download_file-upload_file_example =
    download_file-upload_file toy toy_laws score int16 links (λ name. true) toy_salt
      (λ i. toy_nonce) 100 (codes "f") content (codes "key") world silent [] 200 refl (λ i. refl)
      refl

abbrev uploaded : World
uploaded =
    (upload_file toy score int16 links (λ name. true) toy_salt (λ i. toy_nonce) 100 (codes "f")
      content (codes "key") world).0

abbrev honest : Swarm
honest = record {
  peer_manifest = λ p h. answer_of (get_manifest h uploaded.store);
  peer_chunk = λ p h. answer_of (get_chunk h uploaded.store);
}

no_manifest : (h : Str) → load_manifest h empty_store ≡ none
unfolding load_manifest Dict.get Store.get_manifest
no_manifest h = refl

no_chunk : (h : Str) → load_chunk h empty_store ≡ none
unfolding load_chunk Dict.get
no_chunk h = refl

download_file_from_peer_example :
    ((download_file toy honest ((codes "n", peer) ∷ []) 200 content (codes "key") empty_store).1
      ≡ sent (record { filename = path_name (codes "f"); body = content }))
    ⊎ Collision toy.sha256_hash
download_file_from_peer_example =
    download_file_from_peer toy toy_laws score int16 links (λ name. true) toy_salt (λ i. toy_nonce)
      100 (codes "f") content (codes "key") world uploaded
      (upload_file toy score int16 links (λ name. true) toy_salt (λ i. toy_nonce) 100 (codes "f")
        content (codes "key") world).1
      honest (codes "n") peer [] 200 empty_store refl (λ i. refl) refl refl (λ h. refl) (λ h. refl)
      no_manifest no_chunk

abbrev chat : Chat
chat = record { active_connections = 1 ∷ []; seen_chat_ids = codes "x" ∷ [] }

abbrev pick : (l : List Str) → Str
pick [] = []
pick (i ∷ l) = i

chat_run_once_example :
    occurrences
        (codes "m")
        (chat_run pick
          (λ ws. true)
          (heard (codes "m") ∷ typed (codes "t") (codes "hi") ∷ heard (codes "m") ∷ [])
          chat).1
      + (if str_elem (codes "m") chat.seen_chat_ids then 1 else 0)
    ≤ 1
unfolding str_eq
chat_run_once_example =
    chat_run_once pick (λ ws. true) (codes "m")
      (heard (codes "m") ∷ typed (codes "t") (codes "hi") ∷ heard (codes "m") ∷ []) chat (refl, tt)
      (omega arith)

-- A store with a file of one chunk, which is neither compressed nor encrypted.
abbrev stocked : LocalStore
stocked = record {
  files = (content, record { body = content; accessed = 0 }) ∷ [];
  other_bytes = 0;
  db = record {
    peers = [];
    manifests =
        (
          content,
          record {
            file_hash = content;
            filename = codes "f";
            total_size = 3;
            merkle_root = content;
            chunks_json =
                record {
                  index = some 0;
                  chunk_hash = some content;
                  size = some 3;
                  encrypted = some false;
                }
                ∷ [];
            compression = [];
          },
        )
        ∷ [];
  };
}

abbrev stocked_dict : ManifestDict
stocked_dict = record {
  version = none;
  original_filename = some (codes "f");
  original_size = some 3;
  file_hash = some content;
  chunk_size = none;
  merkle_root = some content;
  compression = some [];
  chunk_count = none;
  chunks = some (
      record { index = some 0; chunk_hash = some content; size = some 3; encrypted = some false }
      ∷ []);
}

stocked_found : load_manifest content stocked ≡ some stocked_dict
unfolding load_manifest Store.get_manifest Dict.get str_eq
stocked_found = refl

stocked_sends :
    (download_file toy silent [] 200 content [] stocked).1
    ≡ sent (record { filename = codes "f"; body = content })
unfolding download_file load_manifest Store.get_manifest Dict.get str_eq from_dict load_chunk
    merge_chunks_to_disk sort_by
stocked_sends = refl

download_file_checks_example : toy.sha256_hash content ≡ content
download_file_checks_example =
    download_file_checks toy silent [] 200 content [] stocked stocked_dict
      (record { filename = codes "f"; body = content }) stocked_found refl stocked_sends

download_file_repeats_example :
    let (after, response) = download_file toy silent [] 200 content [] stocked in
    download_file toy honest ((codes "n", peer) ∷ []) 300 content [] after ≡ (after, response)
download_file_repeats_example =
    download_file_repeats toy silent honest [] ((codes "n", peer) ∷ []) 200 300 content [] stocked
      stocked_dict stocked_found (ap is_settled stocked_sends)
