-- ===== src/Upstream.antt =====
-- internal/upstream/import.go: when the history is handed to a server, and in which batches. A
-- reading is a parameter: no part of it is looked at.
pub mod Batches
mod Tests
use cash_pilot_desktop.Base.{
  ℕ, zero, suc, Bool, ◌&&◌, not, List, [], ◌∷◌, Text, is_empty, trim_space, if◌then◌else◌, ℤ,
  is_positive, pos_part, length, take, drop,
}

abbrev import_chunk : ℕ
import_chunk = 1000

unfoldable pub confirmed : Text → Text → Bool
confirmed sent_worker_key received_worker_key =
    not (is_empty (trim_space sent_worker_key)) && is_empty (trim_space received_worker_key)

unfoldable pub chunk_size : ℤ → ℕ
chunk_size size = if is_positive size then pos_part size else import_chunk

-- The loop, on fuel: what is left from `start` on. The number of readings is enough.
unfoldable pub chunk_loop {ℓ} : {A : Type ℓ} → ℕ → ℕ → List A → List (List A)
chunk_loop n size [] = []
chunk_loop zero size (r ∷ readings) = []
chunk_loop (suc n) size (r ∷ readings) =
    take size (r ∷ readings) ∷ chunk_loop n size (drop size (r ∷ readings))

unfoldable pub chunk_readings {ℓ} : {A : Type ℓ} → List A → ℤ → List (List A)
chunk_readings readings size = chunk_loop (length readings) (chunk_size size) readings
