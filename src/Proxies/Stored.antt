-- ===== src/Proxies/Stored.antt =====
-- About Clean of internal/proxies/proxies.go: what a definition that is stored is like, and what an edit that sends nothing does to it.
use cash_pilot_desktop.Base.{
  ℕ, ℤ, pos, leb_ℤ, atoi, true, false, ◌&&◌, ◌||◌, Option, none, some, [], ◌∷◌, ◌≡◌, refl, inl, inr,
  ◌≤◌, zero, suc, Text, codes, text_eq, is_empty, contains, to_lower, if◌then◌else◌, or_else,
  length, take, Bool-cases, Option-cases, arith, Map, and_then-Meets, Meets-map, Meets,
}
use cash_pilot_desktop.Proxies.{kinds, Floats, Definition, no_definition}
use cash_pilot_desktop.Proxies.Clean.{
  Endpoint, host_re, exit_node_re, login_server_re, is_given, through_tailscale, through_host,
  clean_threshold, percentage, clean_reset_day, day_of_month, clean_cap, gigabytes_in_range, get,
  clean_endpoint, clean_from, clean, truncate, assemble,
}

-- What is stored of a Tailscale proxy, and of one that is reached at a host and a port.
abbrev pub IsTailscale : Endpoint → Type 0
IsTailscale e =
    (is_empty e.auth_key ≡ false)
    × (exit_node_re e.exit_node ≡ true)
    × ((is_empty e.login_server || login_server_re e.login_server) ≡ true)
    × (e.host ≡ [])
    × (e.port ≡ pos 0)
    × (e.username ≡ [])
    × (e.password ≡ [])

abbrev pub IsHost : Endpoint → Type 0
IsHost e =
    (host_re e.host ≡ true)
    × ((leb_ℤ (pos 1) e.port && leb_ℤ e.port (pos 65535)) ≡ true)
    × (e.auth_key ≡ [])
    × (e.exit_node ≡ [])
    × (e.login_server ≡ [])

abbrev pub FitsKind : Text → Endpoint → Type 0
FitsKind kind e = if text_eq kind (codes "tailscale") then IsTailscale e else IsHost e

abbrev pub endpoint_of : {F : Type 0} → Definition F → Endpoint
endpoint_of d = record {
  host = d.host;
  port = d.port;
  username = d.username;
  password = d.password;
  auth_key = d.auth_key;
  exit_node = d.exit_node;
  login_server = d.login_server;
}

abbrev pub DayFits : Option ℤ → Type 0
DayFits none = Unit
DayFits (some day) = (leb_ℤ (pos 1) day && leb_ℤ day (pos 28)) ≡ true

abbrev pub PercentageFits : ℤ → Type 0
PercentageFits pct = (leb_ℤ (pos 10) pct && leb_ℤ pct (pos 100)) ≡ true

through_tailscale-IsTailscale :
    (auth_key exit_node login_server : Text)
    → Meets IsTailscale (through_tailscale auth_key exit_node login_server)
unfolding through_tailscale
through_tailscale-IsTailscale auth_key exit_node login_server =
    elim (Bool-cases (is_empty auth_key)) [
      | inl a ↦ rw a tt
      | inr a ↦ elim (Bool-cases (exit_node_re exit_node)) [
        | inr x ↦ rw (a, x) tt
        | inl x ↦ elim (Bool-cases (is_empty login_server)) [
          | inl e ↦ rw (a, x, e) (a, x, rw e refl, refl, refl, refl, refl)
          | inr e ↦ elim (Bool-cases (login_server_re login_server)) [
            | inr l ↦ rw (a, x, e, l) tt
            | inl l ↦ rw (a, x, e, l) (a, x, rw (e, l) refl, refl, refl, refl, refl)
          ]
        ]
      ]
    ]

through_host-IsHost :
    (host : Text) (port : ℤ) (username password : Text)
    → Meets IsHost (through_host host port username password)
unfolding through_host
through_host-IsHost host port username password = elim (Bool-cases (host_re host)) [
  | inr h ↦ rw h tt
  | inl h ↦ elim (Bool-cases (leb_ℤ (pos 1) port && leb_ℤ port (pos 65535))) [
    | inr p ↦ rw (h, p) tt
    | inl p ↦ rw (h, p) (h, p, refl, refl, refl)
  ]
]

percentage-PercentageFits : (pct : ℤ) → Meets PercentageFits (percentage pct)
unfolding percentage
percentage-PercentageFits pct = elim (Bool-cases (leb_ℤ (pos 10) pct && leb_ℤ pct (pos 100))) [
  | inl p ↦ rw p p
  | inr p ↦ rw p tt
]

clean_threshold-PercentageFits : (text : Text) → Meets PercentageFits (clean_threshold text)
unfolding clean_threshold
clean_threshold-PercentageFits text = elim (Bool-cases (is_given text)) [
  | inr g ↦ rw g (percentage-PercentageFits (pos 90))
  | inl g ↦ elim (Option-cases (atoi text)) [
    | inl a ↦ rw (g, a) tt
    | inr (v, a) ↦ rw (g, a) (percentage-PercentageFits v)
  ]
]

day_of_month-DayFits : (day : ℤ) → Meets DayFits (day_of_month day)
unfolding day_of_month
day_of_month-DayFits day = elim (Bool-cases (leb_ℤ (pos 1) day && leb_ℤ day (pos 28))) [
  | inl p ↦ rw p p
  | inr p ↦ rw p tt
]

clean_reset_day-DayFits : (text : Text) → Meets DayFits (clean_reset_day text)
unfolding clean_reset_day
clean_reset_day-DayFits text = elim (Bool-cases (is_given text)) [
  | inr g ↦ rw g tt
  | inl g ↦ elim (Option-cases (atoi text)) [
    | inl a ↦ rw (g, a) tt
    | inr (v, a) ↦ rw (g, a) (day_of_month-DayFits v)
  ]
]

length-take : (n : ℕ) (t : Text) → length (take n t) ≤ n
length-take zero t = omega arith
length-take (suc n) [] = omega arith
length-take (suc n) (c ∷ t) = omega (arith, length-take n t)

pub take_all : (n : ℕ) (t : Text) → length t ≤ n → take n t ≡ t
take_all zero [] h = refl
take_all zero (c ∷ t) h = let no : ⊥ = omega (arith, h) in elim no [ ]
take_all (suc n) [] h = refl
take_all (suc n) (c ∷ t) h = rw (take_all n t (omega (arith, h)))

module _ {F : Type 0} (floats : Floats F) where
  -- The comparisons of the code find the cap neither too small nor too large. A NaN passes them.
  abbrev pub CapFits : Option F → Type 0
  CapFits none = Unit
  CapFits (some gb) = (floats.below_min gb || floats.above_max gb) ≡ false

  -- A definition as Clean leaves it: its name is given and has at most 80 characters, its kind is
  -- known, the fields of the other kinds are empty, the port, the threshold and the reset day are in
  -- their ranges, and the cap is not found outside its own.
  pub record IsStored (d : Definition F) : Type 0 where
    pub named : is_empty d.name ≡ false
    pub short : length d.name ≤ 80
    pub known : contains kinds d.kind ≡ true
    pub endpoint : FitsKind d.kind (endpoint_of d)
    pub cap : CapFits d.cap_gb
    pub threshold : PercentageFits d.cap_threshold_pct
    pub day : DayFits d.reset_day

  gigabytes_in_range-CapFits : (gb : F) → Meets CapFits (gigabytes_in_range floats gb)
  unfolding gigabytes_in_range
  gigabytes_in_range-CapFits gb = elim (Bool-cases (floats.below_min gb || floats.above_max gb)) [
    | inl p ↦ rw p tt
    | inr p ↦ rw p p
  ]

  clean_cap-CapFits : (text : Text) → Meets CapFits (clean_cap floats text)
  unfolding clean_cap
  clean_cap-CapFits text = elim (Bool-cases (is_given text)) [
    | inr g ↦ rw g tt
    | inl g ↦ elim (Option-cases (floats.parse text)) [
      | inl a ↦ rw (g, a) tt
      | inr (v, a) ↦ rw (g, a) (gigabytes_in_range-CapFits v)
    ]
  ]

  clean_endpoint-FitsKind :
      (values : Map Text) (base : Definition F) (kind : Text)
      → Meets (FitsKind kind) (clean_endpoint floats values base kind)
  unfolding clean_endpoint
  clean_endpoint-FitsKind values base kind = elim (Bool-cases (text_eq kind (codes "tailscale"))) [
    | inl k ↦ rw k (
        Meets-map IsTailscale (FitsKind kind) _ (λ e h. rw k h)
          (through_tailscale-IsTailscale _ _ _))
    | inr k ↦
        rw k (Meets-map IsHost (FitsKind kind) _ (λ e h. rw k h) (through_host-IsHost _ _ _ _))
  ]

  -- A definition that Clean accepts has a name of at most 80 characters, a known kind, nothing in the
  -- fields of the other kinds, a port, a threshold and a reset day in their ranges, and a cap that the
  -- comparisons find neither below 0.001 nor above 1,000,000; a cap that is NaN passes them.
  pub clean-IsStored :
      (values : Map Text) (existing : Option (Definition F))
      → Meets IsStored (clean floats values existing)
  unfolding clean clean_from truncate assemble
  clean-IsStored values existing =
      let base = or_else existing (no_definition F) in
      let given = get values (codes "name") base.name in
      let kind = to_lower (get values (codes "kind") base.kind) in
      elim (Bool-cases (is_empty (take 80 given))) [
        | inl n ↦ rw n tt
        | inr n ↦ elim (Bool-cases (contains kinds kind)) [
          | inr k ↦ rw (n, k) tt
          | inl k ↦
              rw (n, k)
                (and_then-Meets (FitsKind kind) IsStored _ _
                  (clean_endpoint-FitsKind values base kind)
                  (λ e fits. and_then-Meets CapFits IsStored _ _ (clean_cap-CapFits _) (λ cap c.
                    and_then-Meets PercentageFits IsStored _ _ (clean_threshold-PercentageFits _)
                      (λ pct p.
                        and_then-Meets DayFits IsStored _ _ (clean_reset_day-DayFits _) (λ day d.
                          record {
                            named = n;
                            short = length-take 80 given;
                            known = k;
                            endpoint = fits;
                            cap = c;
                            threshold = p;
                            day = d;
                          })))))
        ]
      ]
