-- ===== src/Upstream/Tests.antt =====
-- A history of five readings in batches of two.
use cash_pilot_desktop.Base.{ℕ, List, [], ◌∷◌, ◌≡◌, refl, pos, All}
use cash_pilot_desktop.Upstream.{chunk_readings, chunk_loop, chunk_size}
use cash_pilot_desktop.Upstream.Batches.{chunk_readings-concat, concat, Fits}

abbrev history : List ℕ
history = 1 ∷ 2 ∷ 3 ∷ 4 ∷ 5 ∷ []

three_batches : chunk_readings history (pos 2) ≡ (1 ∷ 2 ∷ []) ∷ (3 ∷ 4 ∷ []) ∷ (5 ∷ []) ∷ []
unfolding chunk_readings chunk_loop chunk_size
three_batches = refl

chunk_readings-concat_example :
    (concat (chunk_readings history (pos 2)) ≡ history)
    × All (Fits (chunk_size (pos 2))) (chunk_readings history (pos 2))
chunk_readings-concat_example = chunk_readings-concat history (pos 2)
