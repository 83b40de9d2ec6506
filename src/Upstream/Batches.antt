-- ===== src/Upstream/Batches.antt =====
-- About ChunkReadings of internal/upstream/import.go: the batches of an import.
use cash_pilot_desktop.Base.{
  ℕ, zero, suc, ◌≤◌, ◌<◌, List, [], ◌∷◌, ◌++◌, ◌≡◌, refl, ap, ◌∙◌, ℤ, length, take, drop,
  take-append-drop, length-drop, All, arith, min,
}
use cash_pilot_desktop.Upstream.{chunk_size, chunk_loop, chunk_readings}

abbrev pub concat {ℓ} : {A : Type ℓ} → List (List A) → List A
concat [] = []
concat (c ∷ cs) = c ++ concat cs

-- A batch that is neither empty nor above the size.
abbrev pub Fits {ℓ} : {A : Type ℓ} → ℕ → List A → Type 0
Fits size batch = (0 < length batch) × (length batch ≤ size)

chunk_size-positive : (size : ℤ) → 0 < chunk_size size
unfolding chunk_size
chunk_size-positive size = ground arith

module _ {ℓ} {A : Type ℓ} where
  length-take : (n : ℕ) (xs : List A) → length (take n xs) ≡ min n (length xs)
  length-take zero xs = omega arith
  length-take (suc n) [] = omega arith
  length-take (suc n) (x ∷ xs) = omega (arith, length-take n xs)

  chunk_loop-concat :
      (n size : ℕ) (readings : List A)
      → 0 < size
      → length readings ≤ n
      → concat (chunk_loop n size readings) ≡ readings
  unfolding chunk_loop
  chunk_loop-concat n size [] p h = refl
  chunk_loop-concat zero size (r ∷ readings) p h = absurd (omega arith)
  chunk_loop-concat (suc n) size (r ∷ readings) p h =
      ap (λ xs. take size (r ∷ readings) ++ xs)
        (chunk_loop-concat n size (drop size (r ∷ readings)) p
          (omega (arith, length-drop size (r ∷ readings))))
      ∙ take-append-drop size (r ∷ readings)

  chunk_loop-Fits :
      (n size : ℕ) (readings : List A) → 0 < size → All (Fits size) (chunk_loop n size readings)
  unfolding chunk_loop
  chunk_loop-Fits n size [] p = tt
  chunk_loop-Fits zero size (r ∷ readings) p = tt
  chunk_loop-Fits (suc n) size (r ∷ readings) p = (
    (
      omega (arith, length-take size (r ∷ readings)),
      omega (arith, length-take size (r ∷ readings)),
    ),
    chunk_loop-Fits n size (drop size (r ∷ readings)) p,
  )

  -- The batches of a history are, one after another, the history itself; none is empty, and none is
  -- longer than the size that was asked for, or than the default where that is not above 0.
  pub chunk_readings-concat :
      (readings : List A) (size : ℤ)
      → (concat (chunk_readings readings size) ≡ readings)
        × All (Fits (chunk_size size)) (chunk_readings readings size)
  unfolding chunk_readings
  chunk_readings-concat readings size = (
    chunk_loop-concat (length readings) (chunk_size size) readings (chunk_size-positive size)
        (omega arith),
    chunk_loop-Fits (length readings) (chunk_size size) readings (chunk_size-positive size),
  )
