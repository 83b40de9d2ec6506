-- ===== src/Proxies.antt =====
-- internal/proxies/proxies.go: the rules for proxied copies. The operations on 64-bit floats, on
-- times and on network addresses, which Go's libraries give, are records of functions; the kind of a
-- refusal stands for its sentence.
mod Clean
mod View
mod Cap
pub mod Refusal
mod Exit
pub mod Refused
pub mod Stored
mod Tests
pub mod Recount
pub mod Tunnel
pub mod Period
pub mod Secrets
pub mod Stopped
pub mod Edit
use cash_pilot_desktop.Base.{
  ℕ, ℤ, pos, Bool, false, Option, none, List, [], ◌∷◌, ◌≡◌, Text, codes, Map,
}

abbrev pub kinds : List Text
kinds = codes "socks5" ∷ codes "http" ∷ codes "tailscale" ∷ []

abbrev pub default_threshold_pct : ℤ
default_threshold_pct = pos 90

-- What the code does with a float64, and what is documented of it.
pub record Floats (F : Type 0) : Type 0 where
  -- `strconv.ParseFloat(s, 64)`, and `strconv.FormatFloat(f, 'g', -1, 64)`.
  pub parse : Text → Option F
  pub format : F → Text
  -- `f <= 0`, `f < MinCapGB` and `f > 1_000_000`.
  pub is_none : F → Bool
  pub below_min : F → Bool
  pub above_max : F → Bool
  -- `uint64(f * GB)`, and `float64(c)/GB` in the same format.
  pub bytes_of : F → ℕ
  pub gigabytes : ℕ → Text

pub record Definition (F : Type 0) : Type 0 where
  pub name : Text
  pub kind : Text
  pub host : Text
  pub port : ℤ
  pub username : Text
  pub password : Text
  pub auth_key : Text
  pub exit_node : Text
  pub login_server : Text
  pub rotating : Bool
  pub cap_gb : Option F
  pub cap_threshold_pct : ℤ
  pub reset_day : Option ℤ

-- `Definition{}`
abbrev pub no_definition : (F : Type 0) → Definition F
no_definition F = record {
  name = [];
  kind = [];
  host = [];
  port = pos 0;
  username = [];
  password = [];
  auth_key = [];
  exit_node = [];
  login_server = [];
  rotating = false;
  cap_gb = none;
  cap_threshold_pct = pos 0;
  reset_day = none;
}

-- `seen_at` is in seconds of Unix time.
pub record Counter : Type 0 where
  pub rx : ℕ
  pub tx : ℕ
  pub seen_at : ℕ
  pub started_at : Text

pub record TestResult : Type 0 where
  pub is_ok : Bool
  pub at : Text
  pub error : Text

pub record State : Type 0 where
  pub used_bytes : ℕ
  pub period_start : Text
  pub capped_at : Text
  pub cap_reason : Text
  pub last_exit_ip : Text
  pub last_country : Text
  pub last_checked_at : Text
  pub last_test : Option TestResult
  pub counters : Map Counter

-- `InputError`, one constructor for each message.
pub data InputError : Type 0 where
  no_name unknown_kind no_auth_key bad_exit_node bad_login_server bad_host bad_port : InputError
  cap_not_a_number cap_out_of_range threshold_not_a_number threshold_out_of_range : InputError
  reset_day_not_a_number reset_day_out_of_range : InputError
