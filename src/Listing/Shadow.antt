-- ===== src/Listing/Shadow.antt =====
-- About Get and SetCustom of internal/catalog/catalog.go: what a lookup by slug finds.
use cash_pilot_desktop.Base.{
  Bool, true, ◌&&◌, not, Option, none, some, List, [], ◌∷◌, map, ◌≡◌, refl, sym, ◌∙◌, ◌⊎◌, inl, inr,
  Text, text_eq, text_eq_iff, text_lt, contains, lookup, All, All-sort, keep, Bool-cases,
  Option-cases, arith, is_some,
}
use cash_pilot_desktop.Catalog.{Service}
use cash_pilot_desktop.Custom.Manage.{is_custom_slug, set_custom}
use cash_pilot_desktop.Listing.{Catalog, find_slug, get, with_custom}

-- A service of the user's own.
abbrev pub IsOwn : Service → Type 0
IsOwn svc = (is_custom_slug svc.slug ≡ true) × (svc.custom ≡ true)

both_left : (a b : Bool) → (a && b) ≡ true → a ≡ true
both_left a b h = ground (arith, h)

both_right : (a b : Bool) → (a && b) ≡ true → b ≡ true
both_right a b h = ground (arith, h)

All-keep :
    (own : List Text) (services : List Service)
    → All IsOwn (
        keep
          (λ svc. (is_custom_slug svc.slug && svc.custom) && not (contains own svc.slug))
          services)
All-keep own [] = tt
All-keep own (svc ∷ services) =
    let passes = (is_custom_slug svc.slug && svc.custom) && not (contains own svc.slug) in
    elim (Bool-cases passes) [
      | inr p ↦ rw p (All-keep own services)
      | inl p ↦
          let own_one = both_left (is_custom_slug svc.slug && svc.custom) _ p in
          rw p (
            (
              both_left (is_custom_slug svc.slug) svc.custom own_one,
              both_right (is_custom_slug svc.slug) svc.custom own_one,
            ),
            All-keep own services,
          )
    ]

set_custom-IsOwn : (own : List Text) (services : List Service) → All IsOwn (set_custom own services)
unfolding set_custom
set_custom-IsOwn own services =
    All-sort (λ a b. text_lt a.name b.name) IsOwn _ (All-keep own services)

some_injective : (a b : Service) → some a ≡ some b → a ≡ b
some_injective a b e = cc

no_service_found : (svc : Service) → ◌≡◌ {A = Option Service} none (some svc) → ⊥
no_service_found svc e = cc

find_slug-IsOwn :
    (slug : Text) (services : List Service) (svc : Service)
    → All IsOwn services
    → find_slug slug services ≡ some svc
    → (svc.slug ≡ slug) × IsOwn svc
unfolding find_slug
find_slug-IsOwn slug [] svc own e = elim (no_service_found svc e) [ ]
find_slug-IsOwn slug (s ∷ services) svc (here, own) e = elim (Bool-cases (text_eq s.slug slug)) [
  | inl q ↦
      let same = some_injective s svc (sym (rw q refl) ∙ e) in
      rw (sym same) ((text_eq_iff s.slug slug).0 q, here)
  | inr q ↦ find_slug-IsOwn slug services svc own (sym (rw q refl) ∙ e)
]

-- A service of that slug that is marked as custom, in its prefix and in its flag.
abbrev pub OwnAt : Text → Option Service → Type 0
OwnAt slug none = Unit
OwnAt slug (some svc) = (svc.slug ≡ slug) × IsOwn svc

get-OwnAt :
    (c : Catalog) (services : List Service) (slug : Text) (found : Option Service)
    → get slug (with_custom services c) ≡ found
    → lookup slug c.by_slug ≡ none
    → OwnAt slug found
unfolding get with_custom
get-OwnAt c services slug none e l = tt
get-OwnAt c services slug (some svc) e l = elim (Bool-cases (is_custom_slug slug)) [
  | inr n ↦ elim (no_service_found svc (sym (rw (l, n, get) refl) ∙ e)) [ ]
  | inl n ↦
      let own = map (λ entry. entry.0) c.by_slug in
      find_slug-IsOwn slug (set_custom own services) svc (set_custom-IsOwn own services)
        (sym (rw (l, n, get) refl) ∙ e)
]

-- Whatever services the user adds, a lookup finds the catalog's entry of every slug that the
-- catalog has; for another slug it finds nothing, or a service of that slug which is marked as
-- custom, in its prefix and in its flag.
pub get-with_custom :
    (c : Catalog) (services : List Service) (slug : Text)
    → let found = get slug (with_custom services c) in
      (is_some (lookup slug c.by_slug) ≡ true) × (found ≡ lookup slug c.by_slug)
      ⊎ (lookup slug c.by_slug ≡ none) × OwnAt slug found
unfolding get with_custom
get-with_custom c services slug = elim (Option-cases (lookup slug c.by_slug)) [
  | inr (entry, l) ↦ inl (rw l refl, rw (l, get) refl)
  | inl l ↦ inr (l, get-OwnAt c services slug (get slug (with_custom services c)) refl l)
]
