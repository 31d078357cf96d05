-- ===== src/Local/Tests.antt =====
-- Eviction from a folder of three chunk files, one of which is stuck.
use distri_store.Prelude.{
  ◌+◌, ◌*◌, ◌≤◌, ◌≡◌, ◌⊎◌, refl, Bool, false, none, [], ◌∷◌, Str, codes, str_eq,
}
use distri_store.Prelude.Dict
use distri_store.Prelude.Dict.{IsDistinct}
use distri_store.Local.{LocalStore, load_chunk, get_storage_size, evict_oldest_chunks}
use distri_store.Local.Eviction.{evict_oldest_chunks_lem}
use distri_store.Local.Monitor.{monitor_turn, monitor_turn_lem}

abbrev folder : LocalStore
folder = record {
  files =
      (codes "a", record { body = 1 ∷ 2 ∷ []; accessed = 30 })
      ∷ (codes "b", record { body = 3 ∷ []; accessed = 10 })
      ∷ (codes "c", record { body = 4 ∷ 5 ∷ 6 ∷ []; accessed = 20 })
      ∷ [];
  other_bytes = 100;
  db = record { peers = []; manifests = [] };
}

abbrev stuck : Str → Bool
stuck h = str_eq h (codes "c")

folder-IsDistinct : IsDistinct folder.files
unfolding Dict.get str_eq
folder-IsDistinct = (refl, (refl, (refl, tt)))

loose : stuck (codes "a") ≡ false
unfolding str_eq
loose = refl

evict_oldest_chunks_lem_example :
    let (left, freed) = evict_oldest_chunks stuck 2 folder in
    (get_storage_size left + freed ≡ get_storage_size folder)
    × ((2 ≤ freed) ⊎ (load_chunk (codes "a") left ≡ none))
evict_oldest_chunks_lem_example =
    evict_oldest_chunks_lem stuck 2 folder (codes "a") folder-IsDistinct loose

monitor_turn_lem_example :
    (get_storage_size (monitor_turn stuck 1 folder) ≤ 1 * 1024 * 1024)
    ⊎ (load_chunk (codes "a") (monitor_turn stuck 1 folder) ≡ none)
monitor_turn_lem_example = monitor_turn_lem stuck 1 folder (codes "a") folder-IsDistinct loose
