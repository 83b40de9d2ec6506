-- ===== src/Proxies/Tests.antt =====
-- A SOCKS proxy with a cap of two units, a tunnel that moves traffic, and a service with a port.
use cash_pilot_desktop.Base.{
  ℕ, suc, zero, ◌+◌, ◌*◌, ◌/◌, ◌%◌, pos, true, false, Option, none, some, [], ◌∷◌, ◌≡◌, ◌↔◌, refl,
  Text, codes, ltb, ◌==◌, length, is_empty, itoa, done, Meets, texts, arith,
}
use cash_pilot_desktop.Catalog.{Service, no_service, no_docker}
use cash_pilot_desktop.Proxies.{Floats, Definition, no_definition, State}
use cash_pilot_desktop.Proxies.Clean.{clean, clean_defs}
use cash_pilot_desktop.Proxies.Stored.{IsStored, clean-IsStored}
use cash_pilot_desktop.Proxies.Edit.{clean_unsent}
use cash_pilot_desktop.Proxies.View.{public_view}
use cash_pilot_desktop.Proxies.Secrets.{public_view_hides}
use cash_pilot_desktop.Proxies.Cap.{
  Clock, Date, Traffic, account, boundary, reset_due, reset_state, cap_defs,
}
use cash_pilot_desktop.Proxies.Stopped.{Round, account_all, account_all_stops}
use cash_pilot_desktop.Proxies.Recount.{account_again}
use cash_pilot_desktop.Proxies.Period.{reset_state_due, IsResetBetween}
use cash_pilot_desktop.Proxies.Refusal.{cap_name}
use cash_pilot_desktop.Proxies.Refused.{needs_host}

-- Numbers that are written as tallies, with one mark more than they count.
abbrev marks : ℕ → Text
marks zero = []
marks (suc n) = b'1' ∷ marks n

abbrev read_marks : Text → Option ℕ
read_marks [] = none
read_marks (c ∷ s) = some (length s)

abbrev tallies : Floats ℕ
tallies = record {
  parse = read_marks;
  format = λ n. b'1' ∷ marks n;
  is_none = λ n. n == 0;
  below_min = λ n. n == 0;
  above_max = λ n. ltb 1000000 n;
  bytes_of = λ n. n * 1000000000;
  gigabytes = λ c. itoa (pos c);
}

length-marks : (n : ℕ) → length (marks n) ≡ n
length-marks zero = refl
length-marks (suc n) = rw (length-marks n) refl

read_marks-marks : (n : ℕ) → read_marks (b'1' ∷ marks n) ≡ some n
read_marks-marks n = rw (length-marks n) refl

tallies_zero : (n : ℕ) → read_marks (codes "0") ≡ some n → (n == 0) ≡ true
tallies_zero zero e = refl
tallies_zero (suc n) e = cc

abbrev home : Definition ℕ
home = record (no_definition ℕ) {
  name = codes "Home";
  kind = codes "socks5";
  host = codes "proxy.example.org";
  port = pos 1080;
  username = codes "me";
  password = codes "secret";
  cap_gb = some 2;
  cap_threshold_pct = pos 90;
  reset_day = some (pos 15);
}

home-IsStored : IsStored tallies home
unfolding texts clean_defs
home-IsStored = record {
  named = refl;
  short = omega arith;
  known = refl;
  endpoint = (refl, refl, refl, refl, refl);
  cap = refl;
  threshold = refl;
  day = refl;
}

clean-IsStored_example : Meets (IsStored tallies) (clean tallies [] (some home))
clean-IsStored_example = clean-IsStored tallies [] (some home)

clean_unsent_example : clean tallies [] (some home) ≡ done home
clean_unsent_example = clean_unsent tallies read_marks-marks refl tallies_zero home home-IsStored

abbrev started : State
started = record {
  used_bytes = 0;
  period_start = [];
  capped_at = [];
  cap_reason = [];
  last_exit_ip = [];
  last_country = [];
  last_checked_at = [];
  last_test = none;
  counters = [];
}

public_view_hides_example :
    public_view tallies
      (pos 1)
      (record home { username = codes "you"; password = codes "hunter2"; auth_key = [] })
      started
      []
    ≡ public_view tallies (pos 1) home started []
public_view_hides_example =
    public_view_hides tallies (pos 1) home started [] (codes "you") (codes "hunter2") [] refl refl
      refl

-- A calendar whose months have 28 days.
abbrev read_date : Text → Option Date
read_date (m ∷ d ∷ []) = some (record { months = m; day = d })
read_date _ = none

abbrev clock : Clock
clock = record {
  rfc3339 = λ now. codes "now";
  format_date = λ now. (24000 + now / 28) ∷ (1 + now % 28) ∷ [];
  date_of = λ now. record { months = 24000 + now / 28; day = 1 + now % 28 };
  parse_date = read_date;
}

abbrev reading : ℕ → Traffic
reading bytes = record {
  tunnel_id = codes "t1";
  started_at = codes "today";
  rx = some bytes;
  tx = some 0;
  exit_ip = [];
  exit_country = [];
}

abbrev round : ℕ → Round
round bytes = record { readings = reading bytes ∷ []; now = bytes }

account_all_stops_example :
    is_empty
      (account_all tallies clock
        (λ ip. ip)
        home
        started
        (round 5 ∷ round 1900000000 ∷ round 1900000001 ∷ [])).0.capped_at
    ≡ false
unfolding account_all cap_defs texts
account_all_stops_example =
    account_all_stops tallies clock (λ ip. ip) home (λ now. refl) started (round 5 ∷ [])
      (round 1900000000) (round 1900000001 ∷ []) 1800000000 refl refl

account_again_example :
    let first = (account tallies clock (λ ip. ip) started home (reading 5 ∷ []) 100).0 in
    (account tallies clock (λ ip. ip) first home (reading 5 ∷ []) 200).0.used_bytes
    ≡ first.used_bytes
account_again_example =
    account_again tallies clock (λ ip. ip) home started (reading 5 ∷ []) 100 200 (tt, tt)
      (omega arith)

counts_first : (account tallies clock (λ ip. ip) started home (reading 5 ∷ []) 100).0.used_bytes ≡ 5
unfolding cap_defs texts
counts_first = refl

reset_state_due_example :
    (reset_due clock home (reset_state tallies clock started 10) 20 ≡ true) ↔ (
      (r : Date) × IsResetBetween 15
        (record { months = 24000; day = 11 })
        (record { months = 24000; day = 21 })
        r)
reset_state_due_example =
    reset_state_due tallies clock home started 10 20 14 (omega arith) refl refl refl (omega arith)

resets_on_15 : reset_due clock home (reset_state tallies clock started 10) 20 ≡ true
unfolding cap_defs texts
resets_on_15 = refl

abbrev server : Service
server = record no_service {
  name = codes "Server";
  docker = record no_docker { cap_add = codes " cap_net_admin" ∷ [] };
}

asks_too_much : needs_host server ≡ true
unfolding texts cap_name
asks_too_much = refl

-- On 1 March the day 31 of February is read as 3 March.
reads_february_31 :
    boundary (record { months = 24314; day = 1 }) 31 ≡ record { months = 24314; day = 3 }
unfolding cap_defs
reads_february_31 = refl
