-- ===== src/Proxies/Recount.antt =====
-- About Account of internal/proxies/proxies.go: the same counters read again.
use cash_pilot_desktop.Base.{
  ℕ, ◌^◌, ◌<◌, true, false, Option, none, some, List, [], ◌∷◌, ◌≡◌, refl, sym, ap, ◌∙◌, inl, inr,
  Text, text_eq, Map, lookup, Bool-cases, arith,
}
use cash_pilot_desktop.Proxies.{Floats, Definition, State, Counter}
use cash_pilot_desktop.Proxies.Cap.{
  Clock, Traffic, fold_readings, drop_expired, is_expired, unix, account, crosses,
}
use cash_pilot_desktop.Proxies.Tunnel.{
  IsCounted, AllCounted, Distinct, folded-AllCounted, folded_again, folded_small,
}

-- What is counted now has not expired now.
not_expired : (now : ℕ) → is_expired now (unix now) ≡ false
not_expired now = ground arith

some_injective : (v w : Counter) → some v ≡ some w → v ≡ w
some_injective v w e = cc

lookup_here :
    (j id : Text) (v : Counter) (m : Map Counter)
    → text_eq j id ≡ true
    → lookup id ((j, v) ∷ m) ≡ some v
unfolding lookup
lookup_here j id v m h = rw h refl

lookup_past :
    (j id : Text) (v : Counter) (m : Map Counter)
    → text_eq j id ≡ false
    → lookup id ((j, v) ∷ m) ≡ lookup id m
unfolding lookup
lookup_past j id v m h = rw h refl

lookup-drop_expired :
    (now : ℕ) (id : Text) (c : Counter) (counters : Map Counter)
    → is_expired now c.seen_at ≡ false
    → lookup id counters ≡ some c
    → lookup id (drop_expired now counters) ≡ some c
unfolding lookup drop_expired
lookup-drop_expired now id c [] e h = h
lookup-drop_expired now id c ((j, v) ∷ counters) e h = elim (Bool-cases (text_eq j id)) [
  | inl q ↦
      let same = sym (lookup_here j id v counters q) ∙ h in
      let fresh : is_expired now v.seen_at ≡ false =
        ap (λ w. is_expired now w.seen_at) (some_injective v c same) ∙ e in
      rw (fresh, q, lookup) same
  | inr q ↦ elim (Bool-cases (is_expired now v.seen_at)) [
    | inl x ↦
        rw x (lookup-drop_expired now id c counters e (sym (lookup_past j id v counters q) ∙ h))
    | inr x ↦
        rw (x, q, lookup)
          (lookup-drop_expired now id c counters e (sym (lookup_past j id v counters q) ∙ h))
  ]
]

IsCounted-kept :
    (now : ℕ) (rx tx : Option ℕ) (r : Traffic) (counters : Map Counter)
    → IsCounted now counters rx tx r
    → IsCounted now (drop_expired now counters) rx tx r
IsCounted-kept now (some rx) (some tx) r counters c = λ e.
    lookup-drop_expired now r.tunnel_id
      (record { rx = rx; tx = tx; seen_at = unix now; started_at = r.started_at }) counters
      (not_expired now) (c e)
IsCounted-kept now (some rx) none r counters c = tt
IsCounted-kept now none tx r counters c = tt

AllCounted-kept :
    (now : ℕ) (readings : List Traffic) (counters : Map Counter)
    → AllCounted now counters readings
    → AllCounted now (drop_expired now counters) readings
AllCounted-kept now [] counters c = tt
AllCounted-kept now (r ∷ readings) counters (cr, c) =
    (IsCounted-kept now r.rx r.tx r counters cr, AllCounted-kept now readings counters c)

module _ {F : Type 0} (floats : Floats F) (clock : Clock) (public_ip : Text → Text)
    (d : Definition F) where
  account_counts :
      (s : State) (readings : List Traffic) (now : ℕ)
      → let read = fold_readings clock public_ip now readings s in
        let next = (account floats clock public_ip s d readings now).0 in
        (next.used_bytes ≡ read.used_bytes) × (next.counters ≡ drop_expired now read.counters)
  unfolding account
  account_counts s readings now =
      let read = fold_readings clock public_ip now readings s in
      elim (Bool-cases
        (crosses floats d (record read { counters = drop_expired now read.counters }))) [
          | inl c ↦ rw c (refl, refl)
          | inr c ↦ rw c (refl, refl)
        ]

  -- Counters that are read again, at any later time and with one reading for each tunnel, add no
  -- traffic.
  pub account_again :
      (s : State) (readings : List Traffic) (now later : ℕ)
      → Distinct readings
      → s.used_bytes < 2 ^ 64
      → let first = (account floats clock public_ip s d readings now).0 in
        (account floats clock public_ip first d readings later).0.used_bytes ≡ first.used_bytes
  account_again s readings now later distinct small =
      let read = fold_readings clock public_ip now readings s in
      let first = (account floats clock public_ip s d readings now).0 in
      let counts = account_counts s readings now in
      let counted : AllCounted now first.counters readings = rw counts.1 (
        AllCounted-kept now readings read.counters
          (folded-AllCounted clock public_ip now readings s distinct)) in
      let bound : first.used_bytes < 2 ^ 64 =
        rw counts.0 (folded_small clock public_ip now readings s small) in
      (account_counts first readings later).0
      ∙ folded_again clock public_ip later now readings first distinct bound counted
