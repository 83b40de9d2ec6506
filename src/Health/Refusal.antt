-- ===== src/Health/Refusal.antt =====
-- About MatchRefusal of internal/health/producer.go: the refusal of a provider, as a text that is empty where there is none.
use cash_pilot_desktop.Base.{
  false, ◌||◌, not, List, [], ◌∷◌, ◌≡◌, refl, Text, is_empty, any, arith, Bool-cases, inl, inr,
}
use cash_pilot_desktop.Catalog.{HealthSignal}
use cash_pilot_desktop.Health.Assess.{
  Engine, Bytes, means_or_default, refuses, refusal_loop, match_refusal, tail_of, refusal_chars,
}

-- An explanation is never empty.
means_or_default-is_empty : (means : Text) → is_empty (means_or_default means) ≡ false
unfolding means_or_default
means_or_default-is_empty means = ground arith

refusal_loop-is_empty :
    (compile : Engine) (logs : Bytes) (signals : List HealthSignal)
    → is_empty (refusal_loop compile logs signals) ≡ not (any (refuses compile logs) signals)
unfolding refusal_loop
refusal_loop-is_empty compile logs [] = refl
refusal_loop-is_empty compile logs (s ∷ signals) =
    ground (arith, refusal_loop-is_empty compile logs signals, means_or_default-is_empty s.means)

-- The refusal that is found is empty exactly when the log is, or when no account_disabled signal
-- has a valid pattern that is found in the end of the log.
pub match_refusal-is_empty :
    (compile : Engine) (logs : Bytes) (signals : List HealthSignal)
    → is_empty (match_refusal compile logs signals)
      ≡ (is_empty logs || not (any (refuses compile (tail_of refusal_chars logs)) signals))
unfolding match_refusal
match_refusal-is_empty compile logs signals = elim (Bool-cases (is_empty logs)) [
  | inl e ↦ rw e
  | inr e ↦ rw e (refusal_loop-is_empty compile (tail_of refusal_chars logs) signals)
]
