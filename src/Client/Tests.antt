-- ===== src/Client/Tests.antt =====
-- Two chunks from two peers, the second one first.
use distri_store.Prelude.{
  ℕ, ◌≡◌, refl, ltb, some, [], ◌∷◌, map, Option, List, Str, Bytes, codes, arith,
}
use mathlib.Core.Option
use distri_store.Prelude.Count.{elem}
use distri_store.Client.{Info, Swarmed, urls_of, assign, fetch, gather, download_chunks_parallel}
use distri_store.Client.Parallel.{in_turn, download_chunks_parallel_lem}

-- Every URL is answered with its own text.
abbrev echo : Str → Option Str → Option Bytes
echo url password = some url

abbrev peers : Option (List Str)
peers = some (codes "a" ∷ codes "b" ∷ [])

abbrev hashes : List Str
hashes = codes "x" ∷ codes "y" ∷ []

one_each : (i : ℕ) → elem i (1 ∷ 0 ∷ []) ≡ ltb i 2
unfolding elem
one_each i = ground arith

runs :
    download_chunks_parallel echo [] peers (1 ∷ 0 ∷ []) hashes
    ≡ some (some (codes "a/chunk/x") ∷ some (codes "b/chunk/y") ∷ [])
unfolding download_chunks_parallel gather fetch assign urls_of
runs = refl

download_chunks_parallel_lem_example :
    download_chunks_parallel echo [] peers (1 ∷ 0 ∷ []) hashes
    ≡ Option.map (map (λ (d : Bytes). some d)) (in_turn echo (urls_of [] peers) 0 hashes)
download_chunks_parallel_lem_example =
    download_chunks_parallel_lem echo [] peers hashes (1 ∷ 0 ∷ []) one_each

abbrev listed : Bytes → Option (List Info)
listed b = some (record { index = 0; chunk_hash = codes "x" } ∷ [])

abbrev result : Swarmed
result = record {
  written = codes "n/download/f";
  stats = record { total_chunks = 1; total_bytes = 9; peers_used = 1; concurrency = 5 };
}
