-- ===== src/Health/Windows.antt =====
-- internal/health/windowed.go: the signals judged over hours of logs, and the cache of their
-- verdicts. Times are nanoseconds. The `regexp` engine and this computer's LAN address are
-- parameters. A background check is a job in the system's list; what the reader gives it is an
-- argument of the step in which it ends.
use cash_pilot_desktop.Base.{
  ℕ, suc, zero, ◌+◌, ◌-◌, Bool, true, false, ◌&&◌, ◌||◌, not, Option, none, some, List, [], ◌∷◌,
  ◌++◌, Text, codes, text_eq, is_empty, split, Map, lookup, insert, delete, if◌then◌else◌, or_else,
  ltb, leb, ◌==◌, max, length, keep, has_prefix, to_lower, any,
}
use cash_pilot_desktop.Catalog.{HealthSignal}
use cash_pilot_desktop.Health.Assess.{
  Engine, Bytes, Hit, is_windowed, means_or_default, signal_state, assess_defs,
}

unfoldable pub window_filter : HealthSignal → Text
window_filter s =
    let first = codes "(?:" ++ (s.pattern ++ codes ")") in
    codes "(?i)"
    ++ (if is_empty s.unless then first else first ++ (codes "|(?:" ++ (s.unless ++ codes ")")))

-- The test behind the count of matching lines.
unfoldable pub spared : Engine → Bytes → HealthSignal → Bool
spared compile lines s = elim (compile (codes "(?i)" ++ s.unless)) [
  | none ↦ true
  | some matches ↦ matches lines
]

unfoldable pub lines_match : Bytes → HealthSignal → (Bytes → Bool) → ℕ
lines_match lines s matches = length (keep matches (split b'\n' lines))

unfoldable pub windowed_hit : Engine → Bytes → HealthSignal → Bool
windowed_hit compile lines s = elim (compile (codes "(?i)" ++ s.pattern)) [
  | none ↦ false
  | some matches ↦
      if is_empty s.pattern || is_empty lines
      then false
      else if ltb (lines_match lines s matches) (max 1 s.min_matches)
      then false
      else is_empty s.unless || not (spared compile lines s)
]

abbrev is_word : ℕ → Bool
is_word c =
    (leb b'a' c && leb c b'z')
    || (leb b'A' c && leb c b'Z')
    || (leb b'0' c && leb c b'9')
    || c == b'_'

-- The name of a placeholder up to `}`; `acc` is what was read of it.
unfoldable pub read_key : Text → Text → Option Text
read_key acc [] = none
read_key acc (c ∷ s) =
    let rest = read_key (acc ++ c ∷ []) s in
    if c == b'}' && not (is_empty acc) then some acc else if is_word c then rest else none

unfoldable pub key_at : Text → Option Text
key_at (c ∷ d ∷ s) = if c == b'$' && d == b'{' then read_key [] s else none
key_at _ = none

abbrev placeholder : Text → Text
placeholder key = codes "${" ++ (key ++ codes "}")

unfoldable pub value_of : Text → Map Text → Text → Text
value_of lan_address vars key =
    let v = or_else (lookup key vars) [] in
    if not (is_empty v)
    then v
    else if text_eq key (codes "HOST_ADDRESS")
    then lan_address
    else placeholder key

-- `skip` counts what is left of the placeholder that was just filled.
unfoldable pub fill_from : Text → Map Text → ℕ → Text → Text
fill_from lan_address vars skip [] = []
fill_from lan_address vars (suc skip) (c ∷ s) = fill_from lan_address vars skip s
fill_from lan_address vars zero (c ∷ s) = elim (key_at (c ∷ s)) [
  | none ↦ c ∷ fill_from lan_address vars 0 s
  | some key ↦ value_of lan_address vars key ++ fill_from lan_address vars (length key + 2) s
]

unfoldable pub fill_vars : Text → Text → Map Text → Text
fill_vars lan_address text vars = fill_from lan_address vars 0 text

-- `remoteDocker`
unfoldable pub remote_docker : Text → Bool
remote_docker host =
    not (is_empty host)
    && (not (has_prefix host (codes "unix://")) && not (has_prefix host (codes "npipe://")))

unfoldable pub tunnel_name : Text → Bool
tunnel_name name =
    any (λ prefix. has_prefix (to_lower name) prefix)
      (codes "utun"
        ∷ codes "tun"
        ∷ codes "tap"
        ∷ codes "ppp"
        ∷ codes "wg"
        ∷ codes "tailscale"
        ∷ codes "gpd"
        ∷ codes "ipsec"
        ∷ [])

pub record Entry : Type 0 where
  -- `none` is the zero time: never checked.
  pub checked : Option ℕ
  pub running : Bool
  pub hits : List Hit

abbrev pub new_entry : Entry
new_entry = record { checked = none; running = false; hits = [] }

-- The cache, and the services whose background check has not ended.
pub record Windows : Type 0 where
  pub entries : Map Entry
  pub jobs : List Text

abbrev pub window_every : ℕ
window_every = 1800000000000

unfoldable pub is_due : ℕ → Entry → Bool
is_due now e = elim e.checked [ none ↦ true | some checked ↦ leb window_every (now - checked) ]

-- `hits`: the last verdict, and the cache with a check started where it is due.
unfoldable pub request : ℕ → Text → Windows → List Hit × Windows
request now slug w =
    let e = or_else (lookup slug w.entries) new_entry in
    if not e.running && is_due now e
    then (
      e.hits,
      record {
        entries = insert slug (record e { running = true }) w.entries;
        jobs = slug ∷ w.jobs;
      },
    )
    else (e.hits, record w { entries = insert slug e w.entries })

unfoldable pub forget : Text → Windows → Windows
forget slug w = elim (lookup slug w.entries) [
  | none ↦ w
  | some e ↦ if e.running then w else record w { entries = delete slug w.entries }
]

-- What one windowed signal adds: `none` where its logs could not be read.
pub data Read : Type 0 where
  unreadable : Read
  lines : Bytes → Read

unfoldable pub windowed_hit_of : Text → Map Text → HealthSignal → Hit
windowed_hit_of lan vars s = record {
  pattern = s.pattern;
  means = fill_vars lan (means_or_default s.means) vars;
  state = signal_state s.state;
}

-- The loop of `refresh`: whether a read failed, and the hits so far. `read` is the reader's answer
-- for a signal's filter and window.
unfoldable pub refresh_hits :
    Engine
    → Text
    → Map Text
    → (HealthSignal → Read)
    → List Hit
    → List HealthSignal
    → Bool × List Hit
refresh_hits compile lan vars read hits [] = (false, hits)
refresh_hits compile lan vars read hits (s ∷ signals) =
    let skipped = refresh_hits compile lan vars read hits signals in
    let hitting =
      refresh_hits compile lan vars read (hits ++ windowed_hit_of lan vars s ∷ []) signals in
    elim (compile (window_filter s)) [
      | none ↦ skipped
      | some _ ↦ elim (read s) [
        | unreadable ↦ (true, hits)
        | lines logs ↦ if windowed_hit compile logs s then hitting else skipped
      ]
    ]

-- The first job of a service leaves the list.
unfoldable pub end_job : Text → List Text → List Text
end_job slug [] = []
end_job slug (j ∷ jobs) = let rest = end_job slug jobs in if text_eq j slug then jobs else j ∷ rest

-- The end of `refresh`.
unfoldable pub finish : ℕ → Text → Bool × List Hit → Windows → Windows
finish now slug (failed, hits) w =
    let e = or_else (lookup slug w.entries) new_entry in
    record {
      entries =
          insert slug
            (record { checked = some now; running = false; hits = if failed then e.hits else hits })
            w.entries;
      jobs = end_job slug w.jobs;
    }

unfoldable pub windowed_only : List HealthSignal → List HealthSignal × List HealthSignal
windowed_only [] = ([], [])
windowed_only (s ∷ signals) =
    let (windowed, rest) = windowed_only signals in
    if is_windowed s then (s ∷ windowed, rest) else (windowed, s ∷ rest)

-- Opens the file and what it uses, for tests.
unfoldable pub windows_defs : Unit {0}
unfolding assess_defs window_filter spared lines_match windowed_hit read_key key_at value_of
    fill_from fill_vars remote_docker tunnel_name is_due request forget windowed_hit_of refresh_hits
    end_job finish windowed_only
windows_defs = tt
