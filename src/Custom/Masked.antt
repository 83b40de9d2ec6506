-- ===== src/Custom/Masked.antt =====
-- About customView and CustomAsService of internal/services/custom.go: what the interface may see, and what a service may be granted.
use cash_pilot_desktop.Base.{
  Bool, true, false, not, List, [], ◌∷◌, map, ◌≡◌, refl, Text, is_empty, is_some, Bool-cases, inl,
  inr, ◌∙◌, texts,
}
use cash_pilot_desktop.Custom.{CustomEnv, CustomDefinition}
use cash_pilot_desktop.Custom.Shown.{custom_view, env_view, custom_as_service, custom_docker}
use cash_pilot_desktop.Proxies.Refusal.{refusal}
use cash_pilot_desktop.Proxies.Refused.{refusal-is_some}

-- The same variables, with the values of the secrets changed but for whether they are set.
pub data Agree : List CustomEnv → List CustomEnv → Type 0 where
  none_left : Agree [] []
  same :
      (e : CustomEnv) {env others : List CustomEnv}
      → Agree env others
      → Agree (e ∷ env) (e ∷ others)
  other_secret :
      (e : CustomEnv) (value : Text) {env others : List CustomEnv}
      → e.secret ≡ true
      → is_empty value ≡ is_empty e.value
      → Agree env others
      → Agree (e ∷ env) (record e { value = value } ∷ others)

map-env_view :
    (env others : List CustomEnv) → Agree env others → map env_view env ≡ map env_view others
unfolding env_view
map-env_view _ _ Agree.none_left = refl
map-env_view (_ ∷ env) (_ ∷ others) (Agree.same e agree) = rw (map-env_view env others agree) refl
map-env_view (_ ∷ env) (_ ∷ others) (Agree.other_secret e value secret set agree) =
    rw (map-env_view env others agree, secret, set) refl

-- Neither the view of a service nor its entry in the catalog tells more of a secret variable than
-- whether it is set.
pub custom_view_hides :
    (slug : Text) (def : CustomDefinition) (others : List CustomEnv)
    → Agree def.env others
    → (custom_view slug (record def { env = others }) ≡ custom_view slug def)
      × (custom_as_service slug (record def { env = others }) false
          ≡ custom_as_service slug def false)
unfolding custom_view custom_as_service custom_docker
custom_view_hides slug def others agree = (rw (map-env_view def.env others agree) refl, refl)

-- A custom service is granted nothing that a proxied copy may not have but a volume, and that only
-- with a data path.
pub custom_as_service-refusal :
    (slug : Text) (def : CustomDefinition) (reveal : Bool)
    → is_some (refusal (custom_as_service slug def reveal)) ≡ not (is_empty def.data_path)
unfolding custom_as_service custom_docker texts
custom_as_service-refusal slug def reveal =
    refusal-is_some (custom_as_service slug def reveal)
    ∙ elim (Bool-cases (is_empty def.data_path)) [ inl e ↦ rw e refl | inr e ↦ rw e refl ]
