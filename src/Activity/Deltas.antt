-- ===== src/Activity/Deltas.antt =====
-- About Deltas.Apply of internal/activity/activity.go: the change that a window reports.
use cash_pilot_desktop.Base.{
  ℕ, ◌+◌, ◌≤◌, true, false, ◌&&◌, not, Option, none, some, ◌≡◌, refl, sym, ap, ◌∙◌, Text,
  text_eq_iff, is_empty, Map, lookup, lookup-insert, pos_part, neg_part, ℤ, arith, Bool-cases,
  Option-cases, inl, inr,
}
use cash_pilot_desktop.Activity.Counters.{
  Counters, CounterState, unknown, max_delta, less_ℤ, difference, goes_back, comparable,
  changes_since, apply,
}

-- `d` is what `c` has over `o`.
abbrev pub IsChange : ℤ → ℤ → ℕ → Type 0
IsChange o c d = d + (pos_part o + neg_part c) ≡ pos_part c + neg_part o

-- The reading before this one, of the same namespace and at most ten minutes old.
abbrev pub IsBaseline : Text → ℕ → CounterState → Type 0
IsBaseline netns now prev = (prev.netns ≡ netns) × (prev.at ≤ now) × (now ≤ prev.at + max_delta)

pub difference-IsChange : (c o : ℤ) → less_ℤ c o ≡ false → IsChange o c (difference c o)
difference-IsChange c o h = ground arith

pub comparable-IsBaseline :
    (netns : Text) (now : ℕ) (prev : CounterState)
    → comparable netns now prev ≡ true
    → IsBaseline netns now prev
unfolding comparable
comparable-IsBaseline netns now prev h =
    (ground (arith, text_eq_iff prev.netns netns), ground arith, ground arith)

abbrev pub add : Option ℕ → Option ℕ → Option ℕ
add (some d) (some k) = some (d + k)
add _ _ = none

abbrev Reported : Text → Counters → ℕ → ℕ → CounterState → Type 0
Reported netns c now d o =
    (comparable netns now o ≡ true)
    × (less_ℤ c.opens o.snmp.opens ≡ false)
    × (difference c.opens o.snmp.opens ≡ d)

pub none-some : (d : ℕ) → none ≡ some d → ⊥
none-some d e = cc

pub some-injective : (a d : ℕ) → some a ≡ some d → a ≡ d
some-injective a d e = cc

changes_since-Reported :
    (netns : Text) (c : Counters) (now d : ℕ) (o : CounterState)
    → (changes_since netns c now (some o) unknown).opens ≡ some d
    → Reported netns c now d o
unfolding changes_since goes_back
changes_since-Reported netns c now d o e =
    elim (Bool-cases (comparable netns now o && not (goes_back c o.snmp))) [
      | inl t ↦ (
        ground (arith),
        ground (arith),
        some-injective (difference c.opens o.snmp.opens) d (rw t at e),
      )
      | inr f ↦ absurd (none-some d (rw f at e))
    ]

pub found_same : {o o' : CounterState} → some o ≡ some o' → o ≡ o'
found_same e = cc

nothing_since :
    (netns : Text) (c : Counters) (now d : ℕ)
    → (changes_since netns c now none unknown).opens ≡ some d
    → ⊥
unfolding changes_since
nothing_since netns c now d e = none-some d e

-- A change of the opened connections is reported only against a reading of the same container, in
-- the same namespace, that is not from the future and at most ten minutes old; and it is the
-- difference of the two readings.
pub apply-opens :
    (owner netns : Text) (c : Counters) (now : ℕ) (prev : Map CounterState) (d : ℕ)
    → (apply owner netns (some c) now prev unknown).1.opens ≡ some d
    → (o : CounterState) × (lookup owner prev ≡ some o)
      × IsBaseline netns now o
      × IsChange o.snmp.opens c.opens d
unfolding apply
apply-opens owner netns c now prev d e = elim (Option-cases (lookup owner prev)) [
  | inl n ↦ absurd (
      nothing_since netns c now d
        (ap (λ o. (changes_since netns c now o unknown).opens) (sym n) ∙ e))
  | inr (o, l) ↦
      let (u, f, q) =
        changes_since-Reported netns c now d o
          (ap (λ o. (changes_since netns c now o unknown).opens) (sym l) ∙ e) in
      (
        o,
        l,
        comparable-IsBaseline netns now o u,
        (rw (sym q) (difference-IsChange c.opens o.snmp.opens f)),
      )
]

pub apply-lookup :
    (owner netns : Text) (c : Counters) (now : ℕ) (prev : Map CounterState)
    → is_empty netns ≡ false
    → lookup owner (apply owner netns (some c) now prev unknown).0
      ≡ some (record { netns = netns; snmp = c; at = now })
unfolding apply
apply-lookup owner netns c now prev h = rw h (
    lookup-insert owner owner (record { netns = netns; snmp = c; at = now }) prev
    ∙ rw ((text_eq_iff owner owner).1 refl) refl)

pub add-some :
    (a b : Option ℕ) (n : ℕ)
    → add a b ≡ some n
    → (d : ℕ) × (k : ℕ) × (a ≡ some d) × (b ≡ some k) × (d + k ≡ n)
add-some none b n e = cc
add-some (some d) none n e = cc
add-some (some d) (some k) n e = (d, k, refl, refl, some-injective (d + k) n e)

IsBaseline-comparable :
    (netns : Text) (now : ℕ) (o : CounterState)
    → is_empty netns ≡ false
    → o.netns ≡ netns
    → o.at ≤ now
    → now ≤ o.at + max_delta
    → comparable netns now o ≡ true
unfolding comparable
IsBaseline-comparable netns now o h s past recent =
    rw (h, (text_eq_iff o.netns netns).1 s) (ground arith)

-- A change is reported whenever there is such a reading, and none of the four TCP counters went
-- back since.
pub apply-reports :
    (owner netns : Text) (c : Counters) (now : ℕ) (prev : Map CounterState) (o : CounterState)
    → is_empty netns ≡ false
    → lookup owner prev ≡ some o
    → IsBaseline netns now o
    → goes_back c o.snmp ≡ false
    → (d : ℕ) × ((apply owner netns (some c) now prev unknown).1.opens ≡ some d)
      × IsChange o.snmp.opens c.opens d
unfolding apply changes_since goes_back
apply-reports owner netns c now prev o h l b g = (
  difference c.opens o.snmp.opens,
  rw (l, IsBaseline-comparable netns now o h b.0 b.1 b.2, g) refl,
  difference-IsChange c.opens o.snmp.opens (ground arith),
)
