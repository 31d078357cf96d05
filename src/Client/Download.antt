-- ===== src/Client/Download.antt =====
-- What a swarmed download writes.
use mathlib.Core.Option
use distri_store.Prelude.{Option}
