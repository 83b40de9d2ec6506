-- ===== src/Activity/Runs.antt =====
-- About Deltas.Apply of internal/activity/activity.go: what the changes of several windows add up to.
use cash_pilot_desktop.Base.{
  ℕ, pos, ◌||◌, true, false, ◌&&◌, not, Option, none, some, List, [], ◌∷◌, ◌≡◌, refl, sym, ap, ◌∙◌,
  Text, is_empty, Map, lookup, ℤ, arith, Bool-cases, inl, inr,
}
use cash_pilot_desktop.Activity.Counters.{
  Counters, CounterState, Changes, unknown, less_ℤ, difference, goes_back, comparable,
  changes_since, udp_change, apply,
}
use cash_pilot_desktop.Activity.Deltas.{
  IsChange, IsBaseline, difference-IsChange, comparable-IsBaseline, add, add-some, none-some,
  some-injective, apply-lookup,
}

-- The counters that are differenced.
pub data Column : Type 0 where
  opens passive_opens attempt_fails resets udp_in udp_out : Column

abbrev pub count_of : Column → Counters → ℤ
count_of Column.opens c = c.opens
count_of Column.passive_opens c = c.passive_opens
count_of Column.attempt_fails c = c.attempt_fails
count_of Column.resets c = c.resets
count_of Column.udp_in c = c.udp_in
count_of Column.udp_out c = c.udp_out

abbrev pub change_of : Column → Changes → Option ℕ
change_of Column.opens s = s.opens
change_of Column.passive_opens s = s.passive_opens
change_of Column.attempt_fails s = s.attempt_fails
change_of Column.resets s = s.resets
change_of Column.udp_in s = s.udp_in
change_of Column.udp_out s = s.udp_out

difference-some :
    (c o : ℤ) (d : ℕ) → less_ℤ c o ≡ false → some (difference c o) ≡ some d → IsChange o c d
difference-some c o d h e =
    omega (arith, difference-IsChange c o h, some-injective (difference c o) d e)

udp_change-IsChange : (c o : ℤ) (d : ℕ) → udp_change c o none ≡ some d → IsChange o c d
unfolding udp_change
udp_change-IsChange c o d e =
    elim (Bool-cases (less_ℤ c (pos 0) || (less_ℤ o (pos 0) || less_ℤ c o))) [
      | inl t ↦ absurd (none-some d (rw t at e))
      | inr f ↦ difference-some c o d (ground (arith, f)) (rw f at e)
    ]

column-IsChange :
    (k : Column) (netns : Text) (c : Counters) (now d : ℕ) (o : CounterState)
    → goes_back c o.snmp ≡ false
    → comparable netns now o ≡ true
    → change_of k (changes_since netns c now (some o) unknown) ≡ some d
    → IsChange (count_of k o.snmp) (count_of k c) d
unfolding changes_since goes_back
column-IsChange Column.opens netns c now d o g t e =
    difference-some c.opens o.snmp.opens d (ground (arith, g)) (rw (t, g) at e)
column-IsChange Column.passive_opens netns c now d o g t e =
    difference-some c.passive_opens o.snmp.passive_opens d (ground (arith, g)) (rw (t, g) at e)
column-IsChange Column.attempt_fails netns c now d o g t e =
    difference-some c.attempt_fails o.snmp.attempt_fails d (ground (arith, g)) (rw (t, g) at e)
column-IsChange Column.resets netns c now d o g t e =
    difference-some c.resets o.snmp.resets d (ground (arith, g)) (rw (t, g) at e)
column-IsChange Column.udp_in netns c now d o g t e =
    udp_change-IsChange c.udp_in o.snmp.udp_in d (rw (t, g) at e)
column-IsChange Column.udp_out netns c now d o g t e =
    udp_change-IsChange c.udp_out o.snmp.udp_out d (rw (t, g) at e)

nothing_known : (k : Column) → change_of k unknown ≡ none
nothing_known Column.opens = refl
nothing_known Column.passive_opens = refl
nothing_known Column.attempt_fails = refl
nothing_known Column.resets = refl
nothing_known Column.udp_in = refl
nothing_known Column.udp_out = refl

known-Baseline :
    (k : Column) (netns : Text) (c : Counters) (now d : ℕ) (o : CounterState)
    → change_of k (changes_since netns c now (some o) unknown) ≡ some d
    → IsBaseline netns now o × IsChange (count_of k o.snmp) (count_of k c) d
unfolding changes_since
known-Baseline k netns c now d o e =
    elim (Bool-cases (comparable netns now o && not (goes_back c o.snmp))) [
      | inl t ↦
          let near : comparable netns now o ≡ true = ground (arith, t) in
          (
            comparable-IsBaseline netns now o near,
            column-IsChange k netns c now d o (ground (arith, t)) near e,
          )
      | inr f ↦ absurd (none-some d (sym (nothing_known k) ∙ (rw f at e)))
    ]

-- A change of a counter is reported only against a comparable reading, and is the difference.
apply-IsChange :
    (k : Column) (owner netns : Text) (c : Counters) (now : ℕ) (prev : Map CounterState)
    (o : CounterState) (d : ℕ)
    → lookup owner prev ≡ some o
    → change_of k (apply owner netns (some c) now prev unknown).1 ≡ some d
    → IsBaseline netns now o × IsChange (count_of k o.snmp) (count_of k c) d
unfolding apply
apply-IsChange k owner netns c now prev o d l e =
    known-Baseline k netns c now d o
      (ap (λ found. change_of k (changes_since netns c now found unknown)) (sym l) ∙ e)

-- A run of readings of one container in one namespace, and the sum of the changes of a counter, if
-- every window reports one.
abbrev pub run_changes : Column → Text → Text → List (Counters × ℕ) → Map CounterState → Option ℕ
run_changes k owner netns [] prev = some 0
run_changes k owner netns ((c, now) ∷ readings) prev =
    add (change_of k (apply owner netns (some c) now prev unknown).1)
      (run_changes k owner netns readings (apply owner netns (some c) now prev unknown).0)

abbrev pub last_count : Column → ℤ → List (Counters × ℕ) → ℤ
last_count k o [] = o
last_count k o ((c, now) ∷ readings) = last_count k (count_of k c) readings

-- Each reading is of the namespace before, and at most ten minutes after the one before it.
abbrev pub AreNear : Text → CounterState → List (Counters × ℕ) → Type 0
AreNear netns o [] = Unit
AreNear netns o ((c, now) ∷ readings) =
    IsBaseline netns now o × AreNear netns (record { netns = netns; snmp = c; at = now }) readings

-- The changes of a run add up, for each of the six counters: where every window of the run reports a
-- change of it, each reading is of the namespace and at most ten minutes after the one before it,
-- and the sum of the changes is the difference between the last reading and the one that stood
-- before the run.
pub run_changes-IsChange :
    (k : Column) (owner netns : Text) (readings : List (Counters × ℕ)) (prev : Map CounterState)
    (o : CounterState) (n : ℕ)
    → is_empty netns ≡ false
    → lookup owner prev ≡ some o
    → run_changes k owner netns readings prev ≡ some n
    → AreNear netns o readings
      × IsChange (count_of k o.snmp) (last_count k (count_of k o.snmp) readings) n
run_changes-IsChange k owner netns [] prev o n h l e = (tt, omega (arith, some-injective 0 n e))
run_changes-IsChange k owner netns ((c, now) ∷ readings) prev o n h l e =
    let after = (apply owner netns (some c) now prev unknown).0 in
    let (d, m, ea, eb, s) = add-some _ (run_changes k owner netns readings after) n e in
    let (near, change) = apply-IsChange k owner netns c now prev o d l ea in
    let made : CounterState = record { netns = netns; snmp = c; at = now } in
    let (rest, sum) =
      run_changes-IsChange k owner netns readings after made m h
        (apply-lookup owner netns c now prev h) eb in
    ((near, rest), omega (arith, change, sum, s))
