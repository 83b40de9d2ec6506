-- ===== src/Proxies/Refused.antt =====
-- About Refusal and RiskyCaps of internal/proxies/proxies.go: which services may run through a proxy.
use cash_pilot_desktop.Base.{
  Bool, true, false, ◌||◌, not, Option, none, some, List, [], ◌∷◌, map, ◌≡◌, refl, sym, ◌∙◌, inl,
  inr, Text, codes, text_eq, has_prefix, contains, any, Map, insert, is_some, Bool-cases, arith,
  any-sort, or_true, text_lt,
}
use cash_pilot_desktop.Catalog.{Service}
use cash_pilot_desktop.Proxies.Refusal.{
  forbidden_caps, cap_name, seen_caps, risky_caps, is_nil, refusal, terms_refuse, shown_name,
}

abbrev pub is_forbidden : Text → Bool
is_forbidden c = contains forbidden_caps (cap_name c)

-- What a copy behind a proxy may not have or be.
abbrev pub needs_host : Service → Bool
needs_host svc =
    text_eq svc.docker.network_mode (codes "host")
    || (has_prefix svc.docker.network_mode (codes "container:")
        || (not (is_nil svc.docker.ports)
            || (not (is_nil svc.docker.volumes)
                || (not (is_nil svc.docker.devices)
                    || (svc.docker.privileged || any is_forbidden svc.docker.cap_add)))))

is_nil-insert : (k : Text) (v : Bool) (m : Map Bool) → is_nil (insert k v m) ≡ false
unfolding insert
is_nil-insert k v [] = refl
is_nil-insert k v ((j, w) ∷ m) = ground arith

is_nil-seen_caps :
    (seen : Map Bool) (caps : List Text)
    → not (is_nil (seen_caps seen caps)) ≡ (not (is_nil seen) || any is_forbidden caps)
unfolding seen_caps
is_nil-seen_caps seen [] = ground arith
is_nil-seen_caps seen (c ∷ caps) = elim (Bool-cases (is_forbidden c)) [
  | inl f ↦
      rw
        (
          f,
          is_nil-seen_caps (insert (cap_name c) true seen) caps,
          is_nil-insert (cap_name c) true seen,
        )
        (sym (or_true (not (is_nil seen))))
  | inr f ↦ rw (f, is_nil-seen_caps seen caps) refl
]

not_nil {ℓ} : {A : Type ℓ} (xs : List A) → not (is_nil xs) ≡ any (λ x. true) xs
not_nil [] = refl
not_nil (x ∷ xs) = refl

not_nil-map {ℓ κ} :
    {A : Type ℓ} {B : Type κ} (f : A → B) (xs : List A)
    → any (λ y. true) (map f xs) ≡ not (is_nil xs)
not_nil-map f [] = refl
not_nil-map f (x ∷ xs) = refl

-- A capability is held against a service exactly when one of the forbidden ones is asked for, in
-- upper or lower case, between spaces or with the prefix CAP_.
risky_caps-is_nil : (caps : List Text) → not (is_nil (risky_caps caps)) ≡ any is_forbidden caps
unfolding risky_caps
risky_caps-is_nil caps =
    not_nil (risky_caps caps)
    ∙ any-sort text_lt (λ x. true) (map (λ entry. entry.0) (seen_caps [] caps))
    ∙ not_nil-map (λ entry. entry.0) (seen_caps [] caps)
    ∙ is_nil-seen_caps [] caps

terms_refuse-is_some :
    (name : Text) (terms : Option Text) → is_some (terms_refuse name terms) ≡ is_some terms
unfolding terms_refuse
terms_refuse-is_some name none = refl
terms_refuse-is_some name (some source) = refl

-- A service is refused exactly when it uses the network of the host or of another container,
-- publishes a port, keeps data, needs a device, is privileged, asks for a capability that is
-- forbidden, or has terms that forbid a proxy.
pub refusal-is_some :
    (svc : Service)
    → is_some (refusal svc) ≡ (needs_host svc || is_some svc.requirements.proxy_prohibited)
unfolding refusal
refusal-is_some svc = ground (
  arith,
  risky_caps-is_nil svc.docker.cap_add,
  terms_refuse-is_some (shown_name svc) svc.requirements.proxy_prohibited,
)
