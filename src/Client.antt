-- ===== src/Client.antt =====
-- backend/framework/client.py: downloads of many chunks at once, each from one of several peers.
-- httpx is a parameter: a GET of a URL with the parameter `password` or none, whose result is none when raise_for_status raises, and the
-- decoding of a manifest. The requests run together and finish in some order, given as `order`, the
-- numbers of the tasks; a number of no task is passed over. The time that a download takes is left
-- out.
pub mod Results
pub mod Parallel
pub mod Download
mod Tests
use distri_store.Manifest.{◌>>=◌}
use distri_store.Prelude.{
  ℕ, ◌+◌, ◌%◌, Option, none, some, List, [], ◌∷◌, ◌++◌, Str, Bytes, codes, length, get_elem?,
  get_or, set, replicate, ltb, if◌then◌else◌,
}

-- The URLs that the client asks, `peer_urls or [self.base_url]`.
unfoldable pub urls_of : Str → Option (List Str) → List Str
urls_of base_url none = base_url ∷ []
urls_of base_url (some []) = base_url ∷ []
urls_of base_url (some (url ∷ urls)) = url ∷ urls

abbrev pub peer_url : List Str → ℕ → Str
peer_url urls idx = get_or urls (idx % length urls) []

-- A password is a parameter of the request, if there is one.
unfoldable pub password_params : Str → Option Str
password_params [] = none
password_params (c ∷ cs) = some (c ∷ cs)

-- An assignment to an element, none for an IndexError.
unfoldable pub assign : List (Option Bytes) → ℕ → Bytes → Option (List (Option Bytes))
assign results idx content =
    if ltb idx (length results) then some (set results idx (some content)) else none

-- An entry of the list `chunks` of a manifest.
pub record Info : Type 0 where
  pub index : ℕ
  pub chunk_hash : Str

-- The variables that the tasks of a swarmed download share.
pub record Swarm : Type 0 where
  pub chunk_data : List (Option Bytes)
  pub downloaded : ℕ
  pub total_bytes : ℕ

pub record Stats : Type 0 where
  pub total_chunks : ℕ
  pub total_bytes : ℕ
  pub peers_used : ℕ
  pub concurrency : ℕ

-- What a swarmed download leaves in the output file, and what it returns.
pub record Swarmed : Type 0 where
  pub written : Bytes
  pub stats : Stats

module _ (get : Str → Option Str → Option Bytes) where
  abbrev pub get_chunk : List Str → ℕ → Str → Option Bytes
  get_chunk urls idx chunk_hash = get (peer_url urls idx ++ codes "/chunk/" ++ chunk_hash) none

  unfoldable pub fetch : List Str → ℕ → Str → List (Option Bytes) → Option (List (Option Bytes))
  fetch urls idx chunk_hash results = do
    content ← get_chunk urls idx chunk_hash
    assign results idx content

  -- The tasks in the order in which they finish; the first exception is raised.
  unfoldable pub gather :
      List Str → List Str → List ℕ → List (Option Bytes) → Option (List (Option Bytes))
  unfolding fetch
  gather urls chunk_hashes [] results = some results
  gather urls chunk_hashes (idx ∷ order) results = elim (get_elem? chunk_hashes idx) [
    | none ↦ gather urls chunk_hashes order results
    | some chunk_hash ↦ elim (fetch urls idx chunk_hash results) [
      | none ↦ none
      | some results ↦ gather urls chunk_hashes order results
    ]
  ]

  unfoldable pub download_chunks_parallel :
      Str → Option (List Str) → List ℕ → List Str → Option (List (Option Bytes))
  unfolding gather urls_of
  download_chunks_parallel base_url peer_urls order chunk_hashes =
      gather (urls_of base_url peer_urls) chunk_hashes order (replicate (length chunk_hashes) none)

  unfoldable pub fetch_chunk : List Str → Info → Swarm → Option Swarm
  fetch_chunk urls info s = do
    content ← get_chunk urls info.index info.chunk_hash
    chunk_data ← assign s.chunk_data info.index content
    some (record {
      chunk_data = chunk_data;
      downloaded = s.downloaded + 1;
      total_bytes = s.total_bytes + length content;
    })

  unfoldable pub gather_swarm : List Str → List Info → List ℕ → Swarm → Option Swarm
  unfolding fetch_chunk
  gather_swarm urls chunks_info [] s = some s
  gather_swarm urls chunks_info (task ∷ order) s = elim (get_elem? chunks_info task) [
    | none ↦ gather_swarm urls chunks_info order s
    | some info ↦ elim (fetch_chunk urls info s) [
      | none ↦ none
      | some s ↦ gather_swarm urls chunks_info order s
    ]
  ]

  -- The bytes that a plain download writes to the output file.
  unfoldable pub download : Str → Str → Str → Option Bytes
  download base_url file_hash password =
      get (base_url ++ codes "/download/" ++ file_hash) (password_params password)

  unfoldable pub download_swarmed :
      (Bytes → Option (List Info))
      → ℕ
      → Str
      → Option (List Str)
      → List ℕ
      → Str
      → Str
      → Option Swarmed
  unfolding gather_swarm urls_of
  download_swarmed manifest_chunks swarm_concurrency base_url peer_urls order file_hash password =
      let urls = urls_of base_url peer_urls in
      do
        manifest ← get (get_or urls 0 [] ++ codes "/manifest/" ++ file_hash) none
        chunks_info ← manifest_chunks manifest
        s ← gather_swarm urls chunks_info order (record {
          chunk_data = replicate (length chunks_info) none;
          downloaded = 0;
          total_bytes = 0;
        })
        content ←
            get (get_or urls 0 [] ++ codes "/download/" ++ file_hash) (password_params password)
        some (record {
          written = content;
          stats = record {
            total_chunks = length chunks_info;
            total_bytes = s.total_bytes;
            peers_used = length urls;
            concurrency = swarm_concurrency;
          };
        })
