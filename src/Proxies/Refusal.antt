-- ===== src/Proxies/Refusal.antt =====
-- Refusal and RiskyCaps of internal/proxies/proxies.go; a sentence is a constructor.
use cash_pilot_desktop.Base.{
  Bool, true, false, not, Option, none, some, List, [], ◌∷◌, map, Text, codes, text_eq, text_lt,
  is_empty, has_prefix, trim_prefix, trim_space, to_upper, contains, Map, insert, sort,
  if◌then◌else◌,
}
use cash_pilot_desktop.Catalog.{Service}

abbrev pub forbidden_caps : List Text
forbidden_caps = codes "NET_ADMIN" ∷ codes "NET_RAW" ∷ codes "SYS_ADMIN" ∷ codes "ALL" ∷ []

-- The name of a capability, as it is compared.
unfoldable pub cap_name : Text → Text
cap_name c = trim_prefix (to_upper (trim_space c)) (codes "CAP_")

unfoldable pub seen_caps : Map Bool → List Text → Map Bool
seen_caps seen [] = seen
seen_caps seen (c ∷ caps) =
    let name = cap_name c in
    seen_caps (if contains forbidden_caps name then insert name true seen else seen) caps

unfoldable pub risky_caps : List Text → List Text
risky_caps caps = sort text_lt (map (λ entry. entry.0) (seen_caps [] caps))

abbrev pub is_nil {ℓ} : {A : Type ℓ} → List A → Bool
is_nil [] = true
is_nil (_ ∷ _) = false

pub data Refusal : Type 0 where
  host_network container_network publishes_port keeps_data needs_device asks_privileged :
      (name : Text) → Refusal
  asks_for : (name : Text) → (risky : List Text) → Refusal
  terms_forbid : (name source : Text) → Refusal

unfoldable pub shown_name : Service → Text
shown_name svc =
    if not (is_empty svc.name)
    then svc.name
    else if not (is_empty svc.slug)
    then svc.slug
    else codes "This service"

unfoldable pub terms_refuse : Text → Option Text → Option Refusal
terms_refuse name none = none
terms_refuse name (some source) = some (terms_forbid name source)

unfoldable pub refusal : Service → Option Refusal
refusal svc =
    let name = shown_name svc in
    let dc = svc.docker in
    let risky = risky_caps dc.cap_add in
    if text_eq dc.network_mode (codes "host")
    then some (host_network name)
    else if has_prefix dc.network_mode (codes "container:")
    then some (container_network name)
    else if not (is_nil dc.ports)
    then some (publishes_port name)
    else if not (is_nil dc.volumes)
    then some (keeps_data name)
    else if not (is_nil dc.devices)
    then some (needs_device name)
    else if dc.privileged
    then some (asks_privileged name)
    else if not (is_nil risky)
    then some (asks_for name risky)
    else terms_refuse name svc.requirements.proxy_prohibited
