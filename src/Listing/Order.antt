-- ===== src/Listing/Order.antt =====
-- newCatalog and catalogLess of internal/catalog/catalog.go: the one order of the entries.
use cash_pilot_desktop.Base.{
  true, false, List, [], ◌∷◌, ◌≡◌, Perm, Text, text_eq, text_eq_iff, text_lt, ltb, pos_part, arith,
  ◌⊎◌, All, All-map, IsSorted, sort-IsSorted, sort-perm,
}
use cash_pilot_desktop.Catalog.{Service}
use cash_pilot_desktop.Listing.{catalog_less, new_catalog}

text_lt_asym : (a b : Text) → text_lt a b ≡ true → text_lt b a ≡ false
unfolding text_lt
text_lt_asym (x ∷ a) (y ∷ b) h = ground (arith, text_lt_asym a b)
text_lt_asym [] [] h = ground arith
text_lt_asym [] (y ∷ b) h = ground arith
text_lt_asym (x ∷ a) [] h = ground arith

text_lt_total : (a b : Text) → text_lt a b ≡ false → text_lt b a ≡ false → text_eq a b ≡ true
unfolding text_lt text_eq
text_lt_total (x ∷ a) (y ∷ b) h k = ground (arith, text_lt_total a b)
text_lt_total [] [] h k = ground arith
text_lt_total [] (y ∷ b) h k = ground arith
text_lt_total (x ∷ a) [] h k = ground arith

text_lt_trans : (a b c : Text) → text_lt b a ≡ false → text_lt c b ≡ false → text_lt c a ≡ false
unfolding text_lt
text_lt_trans (x ∷ a) (y ∷ b) (z ∷ c) h k = ground (arith, text_lt_trans a b c)
text_lt_trans [] [] [] h k = ground arith
text_lt_trans [] [] (z ∷ c) h k = ground arith
text_lt_trans [] (y ∷ b) [] h k = ground arith
text_lt_trans [] (y ∷ b) (z ∷ c) h k = ground arith
text_lt_trans (x ∷ a) [] [] h k = ground arith
text_lt_trans (x ∷ a) [] (z ∷ c) h k = ground arith
text_lt_trans (x ∷ a) (y ∷ b) [] h k = ground arith

catalog_less_asym : (a b : Service) → catalog_less a b ≡ true → catalog_less b a ≡ false
unfolding catalog_less
catalog_less_asym a b h = ground (
  arith,
  text_lt_asym a.category b.category,
  text_lt_asym a.name b.name,
  text_eq_iff a.category b.category,
  text_eq_iff b.category a.category,
)

catalog_less_trans :
    (a b c : Service)
    → catalog_less b a ≡ false
    → catalog_less c b ≡ false
    → catalog_less c a ≡ false
unfolding catalog_less
catalog_less_trans a b c h k = ground (
  arith,
  text_lt_trans a.category b.category c.category,
  text_lt_trans a.name b.name c.name,
  text_lt_total a.category b.category,
  text_lt_total b.category c.category,
  text_lt_total a.category c.category,
  text_eq_iff b.category a.category,
  text_eq_iff c.category b.category,
  text_eq_iff c.category a.category,
)

-- Prioritised entries first, by their number, then the category, then the name.
abbrev pub Precedes : Service → Service → Type 0
Precedes a b =
    (ltb 0 (pos_part a.priority) ≡ true) × (pos_part b.priority ≡ 0)
    ⊎ (ltb 0 (pos_part a.priority) ≡ true)
      × (ltb (pos_part a.priority) (pos_part b.priority) ≡ true)
    ⊎ (pos_part a.priority ≡ pos_part b.priority)
      × ((text_lt a.category b.category ≡ true)
          ⊎ (a.category ≡ b.category) × (text_lt b.name a.name ≡ false))

-- Each entry precedes all that come after it.
abbrev pub InOrder : List Service → Type 0
InOrder [] = Unit
InOrder (a ∷ services) = All (Precedes a) services × InOrder services

catalog_less-Precedes : (a b : Service) → catalog_less b a ≡ false → Precedes a b
unfolding catalog_less
catalog_less-Precedes a b h = ground (
  arith,
  text_lt_total a.category b.category,
  text_eq_iff b.category a.category,
  text_eq_iff a.category b.category,
)

IsSorted-InOrder : (services : List Service) → IsSorted catalog_less services → InOrder services
IsSorted-InOrder [] h = tt
IsSorted-InOrder (a ∷ services) h =
    (All-map _ _ services (λ b g. catalog_less-Precedes a b g) h.0, IsSorted-InOrder services h.1)

-- A new catalog holds exactly the services that it is made of, and each one precedes all that come
-- after it: prioritised ones first, by their number, then by the category, then by the name.
pub new_catalog-InOrder :
    (services : List Service)
    → let c = new_catalog services in Perm c.services services × InOrder c.services
unfolding new_catalog
new_catalog-InOrder services = (
  sort-perm catalog_less services,
  IsSorted-InOrder _ (sort-IsSorted catalog_less catalog_less_asym catalog_less_trans services),
)
