-- ===== src/Local/Monitor.antt =====
-- backend/advanced/garbage_collector.py: a look of the storage monitor at the quota. The bytes to
-- free are a float there, which is cut to a whole number; here the number is exact.
use distri_store.Prelude.{
  ℕ, ◌-◌, ◌*◌, ◌/◌, ◌≤◌, ◌≡◌, ◌⊎◌, false, Bool, none, inl, inr, Str, ltb, Bool-cases, arith,
  if◌then◌else◌,
}
use distri_store.Prelude.Dict.{IsDistinct}
use distri_store.Local.{LocalStore, load_chunk, get_storage_size, evict_oldest_chunks}
use distri_store.Local.Eviction.{evict_oldest_chunks_lem}

abbrev pub target_bytes : ℕ → ℕ → ℕ
target_bytes used_bytes max_bytes = (used_bytes * 10 - max_bytes * 9) / 10

-- One turn of the loop: over the quota, the oldest chunks go until 90% of it is used.
unfoldable pub monitor_turn : (Str → Bool) → ℕ → LocalStore → LocalStore
monitor_turn stuck max_storage_mb s =
    let max_bytes = max_storage_mb * 1024 * 1024 in
    let used_bytes = get_storage_size s in
    if ltb max_bytes used_bytes
    then (evict_oldest_chunks stuck (target_bytes used_bytes max_bytes) s).0
    else s

-- For a folder without double names: after a turn the files are within the quota, or every chunk
-- file that can be deleted is gone.
pub monitor_turn_lem :
    (stuck : Str → Bool) (max_storage_mb : ℕ) (s : LocalStore) (h : Str)
    → IsDistinct s.files
    → stuck h ≡ false
    → let after = monitor_turn stuck max_storage_mb s in
      (get_storage_size after ≤ max_storage_mb * 1024 * 1024) ⊎ (load_chunk h after ≡ none)
unfolding monitor_turn
monitor_turn_lem stuck max_storage_mb s h distinct loose =
    let max_bytes = max_storage_mb * 1024 * 1024 in
    let used_bytes = get_storage_size s in
    elim (Bool-cases (ltb max_bytes used_bytes)) [
      | inr within ↦ rw within (inl (ground (arith, within)))
      | inl over ↦
          let (freed, enough) =
            evict_oldest_chunks_lem stuck (target_bytes used_bytes max_bytes) s h distinct loose in
          rw over
            (elim enough [ inr gone ↦ inr gone | inl most ↦ inl (omega (arith, freed, most)) ])
    ]
