-- ===== src/Pipeline/Tests.antt =====
-- The pipeline, run on a small file.
use distri_store.Prelude.{[], ◌∷◌, Bytes}
use distri_store.Crypto.{◌>>=◌}
use distri_store.Local.{LocalStore}

abbrev file : Bytes
file = 10 ∷ 20 ∷ 30 ∷ 40 ∷ 50 ∷ []

abbrev folder : LocalStore
folder = record { files = []; other_bytes = 0; db = record { peers = []; manifests = [] } }
