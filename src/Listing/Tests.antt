-- ===== src/Listing/Tests.antt =====
-- A catalog with one entry, and two services that the user adds.
use cash_pilot_desktop.Base.{
  is_some, true, false, ◌&&◌, none, some, [], ◌∷◌, ◌++◌, ◌≡◌, refl, ◌⊎◌, codes, Perm, sort,
  insert_sorted, pos, itoa, leb, lookup, texts, arith,
}
use cash_pilot_desktop.Catalog.{Service, no_service}
use cash_pilot_desktop.Custom.Shown.{cut_at, split_tag, split_image_ref}
use cash_pilot_desktop.Custom.Manage.{manage_defs}
use cash_pilot_desktop.Listing.{
  Catalog, new_catalog, with_custom, get, is_port_range, image_outdated, has_digest_pin,
  listing_defs,
}
use cash_pilot_desktop.Listing.Shadow.{OwnAt, get-with_custom}
use cash_pilot_desktop.Listing.Order.{InOrder, new_catalog-InOrder}
use cash_pilot_desktop.Listing.Ports.{is_port_range-itoa}

abbrev entry : Service
entry = record no_service { name = codes "Node"; slug = codes "node" }

abbrev own_service : Service
own_service = record no_service { name = codes "Mine"; slug = codes "custom-mine"; custom = true }

abbrev shadow : Service
shadow = record own_service { slug = codes "node" }

abbrev small : Catalog
small = new_catalog (entry ∷ [])

get-with_custom_example :
    let found = get (codes "node") (with_custom (shadow ∷ own_service ∷ []) small) in
    (is_some (lookup (codes "node") small.by_slug) ≡ true)
      × (found ≡ lookup (codes "node") small.by_slug)
    ⊎ (lookup (codes "node") small.by_slug ≡ none) × OwnAt (codes "node") found
get-with_custom_example = get-with_custom small (shadow ∷ own_service ∷ []) (codes "node")

node_stays : get (codes "node") (with_custom (shadow ∷ []) small) ≡ some entry
unfolding listing_defs manage_defs texts
node_stays = refl

is_port_range-itoa_example :
    is_port_range (itoa (pos 4000) ++ b':' ∷ itoa (pos 70000))
    ≡ (leb 1 4000 && (leb 4000 70000 && leb 70000 65535))
is_port_range-itoa_example = is_port_range-itoa 4000 70000 (omega arith) (omega arith)

moved_image : image_outdated (codes "old/node:1") (codes "new/node:1") ≡ true
unfolding listing_defs cut_at split_tag split_image_ref texts
moved_image = refl

is_no_pin : has_digest_pin (codes "node@sha256:aaaa") ≡ false
unfolding listing_defs cut_at split_tag split_image_ref texts
is_no_pin = refl

abbrev second : Service
second = record entry { priority = pos 2 }

abbrev first : Service
first = record entry { priority = pos 1 }

new_catalog-InOrder_example :
    Perm (new_catalog (entry ∷ second ∷ first ∷ [])).services (entry ∷ second ∷ first ∷ [])
    × InOrder (new_catalog (entry ∷ second ∷ first ∷ [])).services
new_catalog-InOrder_example = new_catalog-InOrder (entry ∷ second ∷ first ∷ [])

prioritised_first :
    (new_catalog (entry ∷ second ∷ first ∷ [])).services ≡ first ∷ second ∷ entry ∷ []
unfolding listing_defs texts sort insert_sorted
prioritised_first = refl
