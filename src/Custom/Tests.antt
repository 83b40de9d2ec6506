-- ===== src/Custom/Tests.antt =====
-- A custom service with a token, from its creation to its deletion.
use cash_pilot_desktop.Base.{
  true, false, is_some, All, some, [], ◌∷◌, ◌≡◌, refl, Text, codes, done, refused, Meets, texts,
  arith,
}
use cash_pilot_desktop.Custom.{CustomEnv, CustomDefinition, being_deployed}
use cash_pilot_desktop.Custom.Slug.{make_custom_slug, slug_defs}
use cash_pilot_desktop.Custom.Fresh.{IsFree, make_custom_slug-IsFree}
use cash_pilot_desktop.Custom.Shown.{custom_view, custom_as_service}
use cash_pilot_desktop.Custom.Validate.{Rules, validate_custom_env, validate_defs}
use cash_pilot_desktop.Custom.Variables.{AreStored, validate_custom_env-AreStored}
use cash_pilot_desktop.Custom.Deploys.{Run, Counted, Run-keeps_active}
use cash_pilot_desktop.Custom.Masked.{Agree, custom_view_hides}
use cash_pilot_desktop.Custom.Manage.{
  State, save_custom, delete_custom, hold_custom, in_flight, get_custom, release, manage_defs,
}

abbrev rules : Rules
rules = record { image_ref = λ s. true; is_print = λ c. true; clean_path = λ s. s }

abbrev token : CustomEnv
token = record { key = codes "TOKEN"; value = codes "abc"; secret = true }

abbrev foo : CustomDefinition
foo = record {
  name = codes "Foo";
  image = codes "foo:1";
  env = token ∷ [];
  command = [];
  data_path = codes "/data";
  mem_limit = codes "512m";
}

make_custom_slug-IsFree_example :
    (slug : Text) × (make_custom_slug (codes "Foo") (codes "custom-foo" ∷ []) ≡ some slug)
    × IsFree (codes "custom-foo" ∷ []) slug
make_custom_slug-IsFree_example =
    make_custom_slug-IsFree (codes "Foo") (codes "custom-foo" ∷ []) (omega arith)

second_foo : make_custom_slug (codes "Foo") (codes "custom-foo" ∷ []) ≡ some (codes "custom-foo-v2")
unfolding slug_defs texts
second_foo = refl

-- The dash before the last digits goes, and other digits come to stand behind the dash before.
ends_as_copy : make_custom_slug (codes "Foo 1 0") [] ≡ some (codes "custom-foo-10")
unfolding slug_defs texts
ends_as_copy = refl

validate_custom_env-AreStored_example :
    Meets
      (AreStored (record token { value = [] } ∷ []) (some foo))
      (validate_custom_env (record token { value = [] } ∷ []) (some foo))
validate_custom_env-AreStored_example =
    validate_custom_env-AreStored (record token { value = [] } ∷ []) (some foo)

keeps_token : validate_custom_env (record token { value = [] } ∷ []) (some foo) ≡ done (token ∷ [])
unfolding validate_defs texts
keeps_token = refl

custom_view_hides_example :
    (custom_view
        (codes "custom-foo")
        (record foo { env = record token { value = codes "xyz" } ∷ [] })
      ≡ custom_view (codes "custom-foo") foo)
    × (custom_as_service
          (codes "custom-foo")
          (record foo { env = record token { value = codes "xyz" } ∷ [] })
          false
        ≡ custom_as_service (codes "custom-foo") foo false)
custom_view_hides_example =
    custom_view_hides (codes "custom-foo") foo (record token { value = codes "xyz" } ∷ [])
      (Agree.other_secret token (codes "xyz") refl refl Agree.none_left)

abbrev fresh : State
fresh = record { table = []; deploying = []; overlay = []; events = [] }

abbrev saved_foo : State
saved_foo = (save_custom rules [] [] foo fresh).0

abbrev held_foo : State
held_foo = (hold_custom (codes "custom-foo") saved_foo).0

foo_begins : Run rules [] fresh held_foo (codes "custom-foo" ∷ [])
unfolding manage_defs validate_defs slug_defs texts
foo_begins =
    Run.begun (codes "custom-foo") (custom_as_service (codes "custom-foo") foo true) refl
      (Run.saved [] foo Run.here)

foo_ends : Run rules [] fresh (release (codes "custom-foo") held_foo) []
foo_ends = Run.ended (codes "custom-foo") [] [] foo_begins

Run-keeps_active_example :
    All (λ slug. is_some (get_custom slug held_foo.table) ≡ true) (codes "custom-foo" ∷ [])
    × Counted held_foo (codes "custom-foo" ∷ [])
Run-keeps_active_example =
    Run-keeps_active rules [] fresh held_foo (codes "custom-foo" ∷ []) refl foo_begins

is_held : in_flight (codes "custom-foo") held_foo ≡ 1
unfolding manage_defs validate_defs slug_defs texts
is_held = refl

delete_waits :
    (delete_custom [] (codes "custom-foo") false (some []) held_foo).1 ≡ refused being_deployed
unfolding manage_defs validate_defs slug_defs texts
delete_waits = refl

abbrev deleted_foo : State
deleted_foo = (delete_custom [] (codes "custom-foo") false (some []) saved_foo).0
