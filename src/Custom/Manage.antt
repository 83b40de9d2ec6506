-- ===== src/Custom/Manage.antt =====
-- The operations of internal/services/custom.go on the table of internal/store/custom_services.go,
-- each of them under the lock `customMu`. The database does not fail here; the records and the
-- containers of deployments, which other parts of the manager write, are arguments.
use cash_pilot_desktop.Base.{
  ℕ, suc, Bool, true, false, ◌&&◌, not, Option, none, some, List, [], ◌∷◌, ◌++◌, ◌-◌, map, Text,
  codes, text_lt, is_empty, contains, has_prefix, Map, lookup, insert, delete, sort, if◌then◌else◌,
  or_else, keep, is_some, leb, Outcome, done, refused,
}
use cash_pilot_desktop.Catalog.{Service}
use cash_pilot_desktop.Custom.{
  CustomDefinition, CustomServiceView, CustomError, not_custom, unknown_custom, being_deployed,
  still_deployed, still_runs, cannot_tell, slug_was_used, not_found, out_of_fuel, custom_prefix,
}
use cash_pilot_desktop.Custom.Slug.{make_custom_slug}
use cash_pilot_desktop.Custom.Shown.{custom_as_service, custom_view}
use cash_pilot_desktop.Custom.Validate.{Rules, validate_custom}

-- A slug, and its definition until it is deleted: a row stays.
abbrev pub Table : Type 0
Table = Map (Option CustomDefinition)

pub record Event : Type 0 where
  pub slug : Text
  pub kind : Text
  pub detail : Text

pub record State : Type 0 where
  pub table : Table
  -- How many deploys of a slug are in flight; a slug that is missing has none.
  pub deploying : Map ℕ
  -- The overlay of the catalog.
  pub overlay : List Service
  pub events : List Event

-- `GetCustomService`
unfoldable pub get_custom : Text → Table → Option CustomDefinition
get_custom slug table = elim (lookup slug table) [ none ↦ none | some row ↦ row ]

-- `CustomServiceSlugs`
unfoldable pub custom_slugs : Table → List Text
custom_slugs table = map (λ row. row.0) table

unfoldable pub live_rows : Table → List (Text × CustomDefinition)
live_rows [] = []
live_rows ((slug, none) ∷ table) = live_rows table
live_rows ((slug, some def) ∷ table) = (slug, def) ∷ live_rows table

-- `ListCustomServices`, by slug.
unfoldable pub list_customs : Table → List (Text × CustomDefinition)
list_customs table = sort (λ a b. text_lt a.0 b.0) (live_rows table)

unfoldable pub is_custom_slug : Text → Bool
is_custom_slug slug = has_prefix slug custom_prefix

-- `catalog.SetCustom`, with the slugs of the catalog's own entries.
unfoldable pub set_custom : List Text → List Service → List Service
set_custom own services =
    sort (λ a b. text_lt a.name b.name)
      (keep (λ svc. (is_custom_slug svc.slug && svc.custom) && not (contains own svc.slug))
        services)

unfoldable pub load_custom : List Text → State → State
load_custom own s = record s {
  overlay =
      set_custom own (map (λ row. custom_as_service row.0 row.1 false) (list_customs s.table));
}

-- `ListCustom`
unfoldable pub list_custom : State → List CustomServiceView
list_custom s = map (λ row. custom_view row.0 row.1) (list_customs s.table)

unfoldable pub record_event : Text → Text → Text → State → State
record_event slug kind detail s = record s {
  events = s.events ++ record { slug = slug; kind = kind; detail = detail } ∷ [];
}

abbrev pub Ended : Type 0 → Type 0
Ended A = State × Outcome CustomError A

unfoldable pub save_definition :
    List Text → Text → Text → CustomDefinition → State → Ended CustomServiceView
save_definition own slug kind def s =
    let stored = record s { table = insert slug (some def) s.table } in
    (load_custom own (record_event slug kind def.image stored), done (custom_view slug def))

-- The insert fails on a slug that has a row.
unfoldable pub create : List Text → CustomDefinition → State → Ended CustomServiceView
create own def s = elim (make_custom_slug def.name (custom_slugs s.table)) [
  | none ↦ (s, refused out_of_fuel)
  | some slug ↦
      if is_some (lookup slug s.table)
      then (s, refused slug_was_used)
      else save_definition own slug (codes "custom_created") def s
]

unfoldable pub save_valid :
    List Text → Text → Outcome CustomError CustomDefinition → State → Ended CustomServiceView
save_valid own slug (refused why) s = (s, refused why)
save_valid own slug (done def) s =
    if is_empty slug
    then create own def s
    else save_definition own slug (codes "custom_updated") def s

unfoldable pub save_custom :
    Rules → List Text → Text → CustomDefinition → State → Ended CustomServiceView
save_custom rules own slug typed s =
    if is_empty slug
    then save_valid own slug (validate_custom rules typed none) s
    else if not (is_custom_slug slug)
    then (s, refused (not_custom slug))
    else elim (get_custom slug s.table) [
      | none ↦ (s, refused (unknown_custom slug))
      | some previous ↦ save_valid own slug (validate_custom rules typed (some previous)) s
    ]

-- What stands against a delete on this machine: a record of a deployment, or a container, where the
-- containers can be listed.
unfoldable pub still_here : Text → Bool → Option (List Text) → Option CustomError
still_here slug recorded containers = if recorded then some still_deployed else elim containers [
  | none ↦ some cannot_tell
  | some slugs ↦ if contains slugs slug then some still_runs else none
]

unfoldable pub in_flight : Text → State → ℕ
in_flight slug s = or_else (lookup slug s.deploying) 0

unfoldable pub drop_definition : List Text → Text → State → Ended (Unit {0})
drop_definition own slug s = elim (get_custom slug s.table) [
  | none ↦ (s, refused not_found)
  | some def ↦
      let dropped = record s { table = insert slug none s.table } in
      (load_custom own (record_event slug (codes "custom_deleted") [] dropped), done tt)
]

unfoldable pub delete_custom :
    List Text → Text → Bool → Option (List Text) → State → Ended (Unit {0})
delete_custom own slug recorded containers s =
    if not (is_custom_slug slug)
    then (s, refused (not_custom slug))
    else if leb 1 (in_flight slug s)
    then (s, refused being_deployed)
    else elim (still_here slug recorded containers) [
      | some why ↦ (s, refused why)
      | none ↦ drop_definition own slug s
    ]

-- `holdCustom`: the revealed service, and the deploy in flight.
unfoldable pub hold_custom : Text → State → Ended Service
hold_custom slug s = elim (get_custom slug s.table) [
  | none ↦ (s, refused (unknown_custom slug))
  | some def ↦ (
    record s { deploying = insert slug (suc (in_flight slug s)) s.deploying },
    done (custom_as_service slug def true),
  )
]

-- The function that holdCustom returns.
unfoldable pub release : Text → State → State
release slug s =
    let left = in_flight slug s - 1 in
    record s {
      deploying = if leb 1 left then insert slug left s.deploying else delete slug s.deploying;
    }

-- Opens the definitions of this module.
unfoldable pub manage_defs : Unit {0}
unfolding get_custom custom_slugs live_rows list_customs is_custom_slug set_custom load_custom
    list_custom record_event save_definition create save_valid save_custom still_here in_flight
    drop_definition delete_custom hold_custom release
manage_defs = tt
