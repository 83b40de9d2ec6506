-- ===== src/Proxies/Clean.antt =====
-- Clean of internal/proxies/proxies.go and the patterns it matches, which are ASCII: a text that
-- matches one has as many characters as bytes.
use cash_pilot_desktop.Base.{
  ℕ, ℤ, pos, leb_ℤ, atoi, itoa, Bool, true, ◌&&◌, ◌||◌, not, Option, none, some, [], ◌∷◌, ◌++◌,
  Text, codes, text_eq, is_empty, has_prefix, trim_space, to_lower, contains, Map, lookup,
  if◌then◌else◌, or_else, leb, ◌==◌, length, take, drop, any, Outcome, done, refused, and_then,
  unless,
}
use cash_pilot_desktop.Proxies.{
  kinds, default_threshold_pct, Floats, Definition, no_definition, InputError, no_name,
  unknown_kind, no_auth_key, bad_exit_node, bad_login_server, bad_host, bad_port, cap_not_a_number,
  cap_out_of_range, threshold_not_a_number, threshold_out_of_range, reset_day_not_a_number,
  reset_day_out_of_range,
}

abbrev is_digit : ℕ → Bool
is_digit c = leb b'0' c && leb c b'9'

abbrev is_alphanumeric : ℕ → Bool
is_alphanumeric c = (leb b'A' c && leb c b'Z') || ((leb b'a' c && leb c b'z') || is_digit c)

-- `[A-Za-z0-9.-]`
abbrev is_host_char : ℕ → Bool
is_host_char c = is_alphanumeric c || (c == b'.' || c == b'-')

abbrev every : (ℕ → Bool) → Text → Bool
every test s = not (any (λ c. not (test c)) s)

abbrev is_between : ℕ → ℕ → ℕ → Bool
is_between least most n = leb least n && leb n most

unfoldable pub host_re : Text → Bool
host_re s = every is_host_char s && is_between 1 253 (length s)

unfoldable pub exit_node_re : Text → Bool
exit_node_re s =
    every (λ c. is_host_char c || (c == b':' || c == b'_')) s && is_between 1 253 (length s)

-- The longest prefix that passes the test, and what follows it.
unfoldable pub span_while : (ℕ → Bool) → Text → Text × Text
span_while test [] = ([], [])
span_while test (c ∷ s) =
    let rest = span_while test s in if test c then (c ∷ rest.0, rest.1) else ([], c ∷ s)

-- `(/[A-Za-z0-9._~/-]*)?$`
unfoldable pub path_re : Text → Bool
path_re [] = true
path_re (c ∷ s) =
    c == b'/' && every (λ d. is_host_char d || (d == b'_' || (d == b'~' || d == b'/'))) s

-- `(:[0-9]{1,5})?` and the rest.
unfoldable pub port_re : Text → Bool
port_re [] = true
port_re (c ∷ s) =
    let digits = span_while is_digit s in
    if c == b':' then is_between 1 5 (length digits.0) && path_re digits.1 else path_re (c ∷ s)

-- The parts of the pattern are told apart by their first character, so that no part has to give
-- back what it took.
unfoldable pub login_server_re : Text → Bool
login_server_re s =
    let host = span_while is_host_char (drop 8 s) in
    has_prefix s (codes "https://") && (is_between 1 253 (length host.0) && port_re host.1)

unfoldable pub is_true : Text → Bool
is_true v =
    contains (codes "1" ∷ codes "true" ∷ codes "on" ∷ codes "yes" ∷ []) (to_lower (trim_space v))

-- `truncate`
unfoldable pub truncate : Text → ℕ → Text
truncate s n = take n s

unfoldable pub format_int : Option ℤ → Text
format_int none = []
format_int (some n) = itoa n

-- The closures of Clean: a field of the form, and a secret.
unfoldable pub get : Map Text → Text → Text → Text
get values key fallback = elim (lookup key values) [ none ↦ fallback | some v ↦ trim_space v ]

unfoldable pub secret : Map Text → Text → Text → Text
secret values field stored =
    let sent = or_else (lookup field values) [] in
    let cleared = or_else (lookup (codes "clear_" ++ field) values) [] in
    if is_true cleared then [] else if is_empty sent then stored else sent

-- `text != "" && text != "0"`
unfoldable pub is_given : Text → Bool
is_given text = not (is_empty text) && not (text_eq text (codes "0"))

abbrev pub Checked : Type 0 → Type 0
Checked = Outcome InputError

-- The fields that depend on the kind.
pub record Endpoint : Type 0 where
  pub host : Text
  pub port : ℤ
  pub username : Text
  pub password : Text
  pub auth_key : Text
  pub exit_node : Text
  pub login_server : Text

unfoldable pub through_tailscale : Text → Text → Text → Checked Endpoint
through_tailscale auth_key exit_node login_server = unless (is_empty auth_key) no_auth_key (
    unless (not (exit_node_re exit_node)) bad_exit_node (
      unless (not (is_empty login_server) && not (login_server_re login_server)) bad_login_server (
        done (record {
          host = [];
          port = pos 0;
          username = [];
          password = [];
          auth_key = auth_key;
          exit_node = exit_node;
          login_server = login_server;
        }))))

unfoldable pub through_host : Text → ℤ → Text → Text → Checked Endpoint
through_host host port username password = unless (not (host_re host)) bad_host (
    unless (not (leb_ℤ (pos 1) port && leb_ℤ port (pos 65535))) bad_port (
      done (record {
        host = host;
        port = port;
        username = username;
        password = password;
        auth_key = [];
        exit_node = [];
        login_server = [];
      })))

unfoldable pub percentage : ℤ → Checked ℤ
percentage pct =
    unless (not (leb_ℤ (pos 10) pct && leb_ℤ pct (pos 100))) threshold_out_of_range (done pct)

unfoldable pub clean_threshold : Text → Checked ℤ
clean_threshold text =
    if is_given text
    then elim (atoi text) [ none ↦ refused threshold_not_a_number | some v ↦ percentage v ]
    else percentage default_threshold_pct

unfoldable pub day_of_month : ℤ → Checked (Option ℤ)
day_of_month day =
    unless (not (leb_ℤ (pos 1) day && leb_ℤ day (pos 28))) reset_day_out_of_range (done (some day))

unfoldable pub clean_reset_day : Text → Checked (Option ℤ)
clean_reset_day text =
    if is_given text
    then elim (atoi text) [ none ↦ refused reset_day_not_a_number | some day ↦ day_of_month day ]
    else done none

module _ {F : Type 0} (floats : Floats F) where
  unfoldable pub format_float : Option F → Text
  format_float none = []
  format_float (some f) = floats.format f

  unfoldable pub gigabytes_in_range : F → Checked (Option F)
  gigabytes_in_range gb =
      unless (floats.below_min gb || floats.above_max gb) cap_out_of_range (done (some gb))

  unfoldable pub clean_cap : Text → Checked (Option F)
  clean_cap text =
      if is_given text
      then elim (floats.parse text) [
        | none ↦ refused cap_not_a_number
        | some gb ↦ gigabytes_in_range gb
      ]
      else done none

  unfoldable pub clean_endpoint : Map Text → Definition F → Text → Checked Endpoint
  clean_endpoint values base kind =
      if text_eq kind (codes "tailscale")
      then through_tailscale (secret values (codes "auth_key") base.auth_key)
          (get values (codes "exit_node") base.exit_node)
          (get values (codes "login_server") base.login_server)
      else through_host (get values (codes "host") base.host)
          (or_else (atoi (get values (codes "port") (itoa base.port))) (pos 0))
          (secret values (codes "username") base.username)
          (secret values (codes "password") base.password)

  unfoldable pub clean_rotating : Map Text → Bool → Bool
  clean_rotating values stored = elim (lookup (codes "rotating") values) [
    | none ↦ stored
    | some v ↦ is_true v
  ]

  unfoldable pub assemble : Text → Text → Bool → Endpoint → Option F → ℤ → Option ℤ → Definition F
  assemble name kind rotating e cap_gb pct reset_day = record {
    name = name;
    kind = kind;
    host = e.host;
    port = e.port;
    username = e.username;
    password = e.password;
    auth_key = e.auth_key;
    exit_node = e.exit_node;
    login_server = e.login_server;
    rotating = rotating;
    cap_gb = cap_gb;
    cap_threshold_pct = pct;
    reset_day = reset_day;
  }

  -- `base` is the stored definition, or the empty one.
  unfoldable pub clean_from : Map Text → Definition F → Checked (Definition F)
  clean_from values base =
      let name = truncate (get values (codes "name") base.name) 80 in
      let kind = to_lower (get values (codes "kind") base.kind) in
      let pct_text = get values (codes "cap_threshold_pct") (itoa base.cap_threshold_pct) in
      unless (is_empty name) no_name (
        unless (not (contains kinds kind)) unknown_kind (
          and_then (clean_endpoint values base kind) (λ endpoint.
            and_then (clean_cap (get values (codes "cap_gb") (format_float base.cap_gb))) (λ cap.
              and_then (clean_threshold pct_text) (λ pct.
                and_then
                  (clean_reset_day (get values (codes "reset_day") (format_int base.reset_day)))
                  (λ day. done (
                    assemble name kind (clean_rotating values base.rotating) endpoint cap pct
                      day)))))))

  unfoldable pub clean : Map Text → Option (Definition F) → Checked (Definition F)
  clean values existing = clean_from values (or_else existing (no_definition F))

-- Opens the definitions of this module.
unfoldable pub clean_defs : Unit {0}
unfolding host_re exit_node_re span_while path_re port_re login_server_re is_true truncate
    format_int get secret is_given through_tailscale through_host percentage clean_threshold
    day_of_month clean_reset_day format_float gigabytes_in_range clean_cap clean_endpoint
    clean_rotating assemble clean_from clean
clean_defs = tt
