-- ===== src/Proxies/Edit.antt =====
-- About Clean of internal/proxies/proxies.go: an edit that sends no field.
use cash_pilot_desktop.Base.{
  ℕ, ℤ, pos, negsuc, leb_ℤ, atoi, itoa, atoi-itoa, true, false, ◌&&◌, Option, none, some, [], ◌∷◌,
  ◌≡◌, refl, sym, ap, ◌∙◌, inl, inr, ◌≤◌, ◌<◌, ◌^◌, zero, suc, Text, codes, text_eq, text_eq_iff,
  true_not_false, Bool, is_empty, contains, to_lower, if◌then◌else◌, or_else, length, Bool-cases,
  arith, done, texts,
}
use cash_pilot_desktop.Proxies.{kinds, Floats, Definition}
use cash_pilot_desktop.Proxies.Clean.{
  Endpoint, login_server_re, is_given, get, secret, is_true, clean_rotating, through_tailscale,
  through_host, clean_threshold, percentage, clean_reset_day, day_of_month, clean_cap,
  gigabytes_in_range, clean_endpoint, clean_from, clean, truncate, format_int, format_float,
  assemble,
}
use cash_pilot_desktop.Proxies.Stored.{
  IsTailscale, IsHost, endpoint_of, DayFits, PercentageFits, CapFits, IsStored, take_all,
}

-- A text that is neither empty nor 0 is given.
given_of : (t : Text) → (t ≡ [] → ⊥) → (t ≡ codes "0" → ⊥) → is_given t ≡ true
unfolding is_given
given_of [] e z = elim (e refl) [ ]
given_of (c ∷ t) e z = elim (Bool-cases (text_eq (c ∷ t) (codes "0"))) [
  | inl q ↦ elim (z ((text_eq_iff (c ∷ t) (codes "0")).0 q)) [ ]
  | inr q ↦ rw q refl
]

none_ends : (n : ℕ) → atoi [] ≡ some (pos (suc n)) → ⊥
unfolding texts
none_ends n h = cc

zero_ends : (n : ℕ) → atoi (codes "0") ≡ some (pos (suc n)) → ⊥
unfolding texts
zero_ends n h = cc

atoi_given : (t : Text) (n : ℕ) → atoi t ≡ some (pos (suc n)) → is_given t ≡ true
atoi_given t n h = given_of t (λ e. none_ends n (rw (sym e) h)) (λ e. zero_ends n (rw (sym e) h))

is_given-itoa : (n : ℕ) → suc n < 2 ^ 63 → is_given (itoa (pos (suc n))) ≡ true
is_given-itoa n h = atoi_given (itoa (pos (suc n))) n (atoi-itoa (suc n) h)

most :
    (n least high : ℕ) → (leb_ℤ (pos least) (pos n) && leb_ℤ (pos n) (pos high)) ≡ true → n ≤ high
most n least high h = ground arith

no_negative :
    (n least high : ℕ)
    → (leb_ℤ (pos (suc least)) (negsuc n) && leb_ℤ (negsuc n) (pos high)) ≡ true
    → ⊥
no_negative n least high h = ground arith

percentage_stays : (pct : ℤ) → PercentageFits pct → clean_threshold (itoa pct) ≡ done pct
unfolding clean_threshold percentage
percentage_stays (negsuc n) h = elim (no_negative n 9 100 h) [ ]
percentage_stays (pos zero) h = cc
percentage_stays (pos (suc n)) h =
    let small : suc n < 2 ^ 63 = omega (arith, most (suc n) 10 100 h) in
    rw (is_given-itoa n small, atoi-itoa (suc n) small, h) refl

day_stays : (day : Option ℤ) → DayFits day → clean_reset_day (format_int day) ≡ done day
unfolding clean_reset_day day_of_month format_int is_given
day_stays none h = refl
day_stays (some (negsuc n)) h = elim (no_negative n 0 28 h) [ ]
day_stays (some (pos zero)) h = cc
day_stays (some (pos (suc n))) h =
    let small : suc n < 2 ^ 63 = omega (arith, most (suc n) 1 28 h) in
    rw (is_given-itoa n small, atoi-itoa (suc n) small, h) refl

port_stays :
    (port : ℤ)
    → (leb_ℤ (pos 1) port && leb_ℤ port (pos 65535)) ≡ true
    → or_else (atoi (itoa port)) (pos 0) ≡ port
port_stays (negsuc n) h = elim (no_negative n 0 65535 h) [ ]
port_stays (pos n) h = rw (atoi-itoa n (omega (arith, most n 1 65535 h))) refl

name_stays : (name : Text) → length name ≤ 80 → truncate name 80 ≡ name
unfolding truncate
name_stays name h = take_all 80 name h

-- A kind that is known is in lower case.
lowered :
    (kind known : Text) → to_lower known ≡ known → text_eq known kind ≡ true → to_lower kind ≡ kind
lowered kind known l h = rw (sym ((text_eq_iff known kind).0 h)) l

lowered_kinds :
    (to_lower (codes "socks5") ≡ codes "socks5")
    × (to_lower (codes "http") ≡ codes "http")
    × (to_lower (codes "tailscale") ≡ codes "tailscale")
unfolding texts
lowered_kinds = (refl, refl, refl)

kind_stays : (kind : Text) → contains kinds kind ≡ true → to_lower kind ≡ kind
kind_stays kind h = elim (Bool-cases (text_eq (codes "socks5") kind)) [
  | inl k ↦ lowered kind (codes "socks5") lowered_kinds.0 k
  | inr n ↦ elim (Bool-cases (text_eq (codes "http") kind)) [
    | inl k ↦ lowered kind (codes "http") lowered_kinds.1 k
    | inr m ↦ lowered kind (codes "tailscale") lowered_kinds.2 (ground (arith, h, n, m))
  ]
]

through_tailscale_same :
    (e : Endpoint)
    → e.host ≡ []
    → e.port ≡ pos 0
    → e.username ≡ []
    → e.password ≡ []
    → record e { host = []; port = pos 0; username = []; password = [] } ≡ e
through_tailscale_same e h p u w = cc

through_host_same :
    (e : Endpoint)
    → e.auth_key ≡ []
    → e.exit_node ≡ []
    → e.login_server ≡ []
    → record e { auth_key = []; exit_node = []; login_server = [] } ≡ e
through_host_same e a x l = cc

through_tailscale_stays :
    (e : Endpoint)
    → IsTailscale e
    → through_tailscale e.auth_key e.exit_node e.login_server ≡ done e
unfolding through_tailscale
through_tailscale_stays e (a, x, l, h, p, u, w) =
    let same = ap done (through_tailscale_same e h p u w) in
    elim (Bool-cases (is_empty e.login_server)) [
      | inl n ↦ rw (a, x, n) same
      | inr n ↦
          let r : login_server_re e.login_server ≡ true = ground (arith, l, n) in
          rw (a, x, n, r) same
    ]

through_host_stays :
    (e : Endpoint) → IsHost e → through_host e.host e.port e.username e.password ≡ done e
unfolding through_host
through_host_stays e (h, p, a, x, l) = rw (h, p) (ap done (through_host_same e a x l))

pub true_case : (A B : Type 0) (b : Bool) → b ≡ true → (if b then A else B) → A
true_case A B true e x = x
true_case A B false e x = elim (true_not_false (sym e)) [ ]

pub false_case : (A B : Type 0) (b : Bool) → b ≡ false → (if b then A else B) → B
false_case A B true e x = elim (true_not_false e) [ ]
false_case A B false e x = x

no_value : {F : Type 0} → (f : F) → ◌≡◌ {A = Option F} none (some f) → ⊥
no_value f e = cc

module _ {F : Type 0} (floats : Floats F) where
  endpoint_stays :
      (d : Definition F)
      → IsStored floats d
      → clean_endpoint floats [] d d.kind ≡ done (endpoint_of d)
  unfolding texts clean_endpoint get secret is_true
  endpoint_stays d h = elim (Bool-cases (text_eq d.kind (codes "tailscale"))) [
    | inl k ↦ rw k (through_tailscale_stays (endpoint_of d) (true_case _ _ _ k h.endpoint))
    | inr k ↦
        let fits : IsHost (endpoint_of d) = false_case _ _ _ k h.endpoint in
        rw (k, port_stays d.port fits.1) (through_host_stays (endpoint_of d) fits)
  ]

  module _ (parse-format : (f : F) → floats.parse (floats.format f) ≡ some f)
      (parse_nothing : floats.parse [] ≡ none)
      (parse_zero : (f : F) → floats.parse (codes "0") ≡ some f → floats.below_min f ≡ true) where
    not_nothing : (gb : F) → floats.format gb ≡ [] → ⊥
    not_nothing gb e = no_value gb (sym parse_nothing ∙ rw (sym e) (parse-format gb))

    not_zero : (gb : F) → CapFits floats (some gb) → floats.format gb ≡ codes "0" → ⊥
    not_zero gb h e =
        let low = parse_zero gb (rw (sym e) (parse-format gb)) in ground (arith, low, h)

    cap_stays :
        (cap : Option F)
        → CapFits floats cap
        → clean_cap floats (format_float floats cap) ≡ done cap
    unfolding clean_cap format_float gigabytes_in_range is_given
    cap_stays none h = refl
    cap_stays (some gb) h =
        rw (given_of (floats.format gb) (not_nothing gb) (not_zero gb h), parse-format gb, h) refl

    -- An edit that sends no field changes nothing in a definition that may be stored.
    pub clean_unsent : (d : Definition F) → IsStored floats d → clean floats [] (some d) ≡ done d
    unfolding clean clean_from get clean_rotating assemble texts
    clean_unsent d h =
        rw
          (
            name_stays d.name h.short,
            kind_stays d.kind h.known,
            h.named,
            h.known,
            endpoint_stays d h,
            cap_stays d.cap_gb h.cap,
            percentage_stays d.cap_threshold_pct h.threshold,
            day_stays d.reset_day h.day,
          )
          refl
