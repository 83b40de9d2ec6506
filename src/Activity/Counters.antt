-- ===== src/Activity/Counters.antt =====
-- The counter state between rounds, of internal/activity/activity.go (Deltas). A counter is a 64-bit
-- integer, -1 for a UDP counter that could not be read; a difference is taken only where it is not
-- negative. Times are in milliseconds, and the seconds of a delta are told in tenths.
use cash_pilot_desktop.Base.{
  ℕ, ◌+◌, ◌-◌, ◌/◌, Bool, ◌&&◌, ◌||◌, not, Option, none, some, List, [], ◌∷◌, Text, text_eq,
  is_empty, Map, lookup, insert, delete, if◌then◌else◌, leb, ℤ, pos, pos_part, neg_part, leb_ℤ,
  texts, contains,
}

-- ActiveOpens, PassiveOpens, AttemptFails, EstabResets, UDP in, UDP out
pub record Counters : Type 0 where
  pub opens : ℤ
  pub passive_opens : ℤ
  pub attempt_fails : ℤ
  pub resets : ℤ
  pub udp_in : ℤ
  pub udp_out : ℤ

pub record CounterState : Type 0 where
  pub netns : Text
  pub snmp : Counters
  pub at : ℕ

-- The delta fields of a sample.
pub record Changes : Type 0 where
  pub opens : Option ℕ
  pub passive_opens : Option ℕ
  pub attempt_fails : Option ℕ
  pub resets : Option ℕ
  pub udp_in : Option ℕ
  pub udp_out : Option ℕ
  pub delta_tenths : Option ℕ

abbrev pub unknown : Changes
unknown = record {
  opens = none;
  passive_opens = none;
  attempt_fails = none;
  resets = none;
  udp_in = none;
  udp_out = none;
  delta_tenths = none;
}

unfoldable pub max_delta : ℕ
max_delta = 600000

abbrev pub less_ℤ : ℤ → ℤ → Bool
less_ℤ a b = not (leb_ℤ b a)

-- `c - o` where `c` is not below `o`
abbrev pub difference : ℤ → ℤ → ℕ
difference c o = (pos_part c + neg_part o) - (pos_part o + neg_part c)

unfoldable pub goes_back : Counters → Counters → Bool
goes_back c o =
    less_ℤ c.opens o.opens
    || (less_ℤ c.passive_opens o.passive_opens
        || (less_ℤ c.attempt_fails o.attempt_fails || less_ℤ c.resets o.resets))

unfoldable pub udp_change : ℤ → ℤ → Option ℕ → Option ℕ
udp_change c o old =
    if less_ℤ c (pos 0) || (less_ℤ o (pos 0) || less_ℤ c o) then old else some (difference c o)

-- The last reading can be compared with this one.
unfoldable pub comparable : Text → ℕ → CounterState → Bool
comparable netns now prev =
    not (is_empty netns)
    && (text_eq prev.netns netns && (leb prev.at now && leb (now - prev.at) max_delta))

unfoldable pub tenths : ℕ → ℕ
tenths ms = (ms + 50) / 100

unfoldable pub changes_since : Text → Counters → ℕ → Option CounterState → Changes → Changes
changes_since netns c now none s = s
changes_since netns c now (some prev) s =
    if comparable netns now prev && not (goes_back c prev.snmp)
    then record {
      opens = some (difference c.opens prev.snmp.opens);
      passive_opens = some (difference c.passive_opens prev.snmp.passive_opens);
      attempt_fails = some (difference c.attempt_fails prev.snmp.attempt_fails);
      resets = some (difference c.resets prev.snmp.resets);
      udp_in = udp_change c.udp_in prev.snmp.udp_in s.udp_in;
      udp_out = udp_change c.udp_out prev.snmp.udp_out s.udp_out;
      delta_tenths = some (tenths (now - prev.at));
    }
    else s

-- `Apply`: the state for the next round, and the sample.
unfoldable pub apply :
    Text → Text → Option Counters → ℕ → Map CounterState → Changes → Map CounterState × Changes
apply owner netns none now prev s = (delete owner prev, s)
apply owner netns (some c) now prev s = (
  if is_empty netns
      then delete owner prev
      else insert owner (record { netns = netns; snmp = c; at = now }) prev,
  changes_since netns c now (lookup owner prev) s,
)

unfoldable pub forget : Text → Map CounterState → Map CounterState
forget owner prev = delete owner prev

unfoldable pub reset : Map CounterState → Map CounterState
reset prev = []

-- `Keep`: only the namespaces in the set stay.
unfoldable pub keep_live : List Text → Map CounterState → Map CounterState
keep_live live [] = []
keep_live live ((owner, st) ∷ prev) =
    let rest = keep_live live prev in if contains live owner then (owner, st) ∷ rest else rest

-- Opens the file and the text functions, for tests.
unfoldable pub counters_defs : Unit {0}
unfolding texts max_delta goes_back udp_change comparable tenths changes_since apply forget reset
    keep_live
counters_defs = tt
