-- ===== src/Base/Outcomes.antt =====
-- Results of functions that return an error, and predicates on them along a chain.
use mathlib.Core.Bool.{Bool}
use cash_pilot_desktop.Base.Tests.{if◌then◌else◌}

pub data Outcome {ℓ κ} (E : Type ℓ) (A : Type κ) : Type (ℓ ⊔ κ) where
  done : A → Outcome E A
  refused : E → Outcome E A

module _ {ℓ} {E : Type ℓ} where
  -- `if err != nil { return err }`
  abbrev pub and_then {κ μ} :
      {A : Type κ} {B : Type μ} → Outcome E A → (A → Outcome E B) → Outcome E B
  and_then (done a) f = f a
  and_then (refused why) f = refused why

  abbrev pub unless {κ} : {A : Type κ} → Bool → E → Outcome E A → Outcome E A
  unless bad why rest = if bad then refused why else rest

  -- What holds of the value of a result, if it has one.
  abbrev pub Meets {κ} : {A : Type κ} → (A → Type 0) → Outcome E A → Type 0
  Meets P (done a) = P a
  Meets P (refused _) = Unit

  pub and_then-Meets {κ μ} :
      {A : Type κ} {B : Type μ} (P : A → Type 0) (Q : B → Type 0) (r : Outcome E A)
      (f : A → Outcome E B)
      → Meets P r
      → ((a : A) → P a → Meets Q (f a))
      → Meets Q (and_then r f)
  and_then-Meets P Q (done a) f h k = k a h
  and_then-Meets P Q (refused _) f h k = tt

  pub Meets-map {κ} :
      {A : Type κ} (P Q : A → Type 0) (r : Outcome E A)
      → ((a : A) → P a → Q a)
      → Meets P r
      → Meets Q r
  Meets-map P Q (done a) f h = f a h
  Meets-map P Q (refused _) f h = tt
