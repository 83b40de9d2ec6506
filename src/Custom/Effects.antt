-- ===== src/Custom/Effects.antt =====
-- About the operations of internal/services/custom.go: what each can do to the table and to the deploys in flight.
use cash_pilot_desktop.Base.{
  suc, ◌-◌, Bool, true, false, Option, none, some, List, ◌≡◌, refl, sym, ◌∙◌, inl, inr, Text,
  is_empty, lookup, insert, delete, is_some, if◌then◌else◌, leb, Outcome, done, refused, Bool-cases,
  Option-cases, true_not_false,
}
use cash_pilot_desktop.Custom.{CustomDefinition, CustomError}
use cash_pilot_desktop.Custom.Slug.{make_custom_slug}
use cash_pilot_desktop.Custom.Validate.{Rules}
use cash_pilot_desktop.Custom.Manage.{
  Table, State, get_custom, custom_slugs, is_custom_slug, load_custom, record_event,
  save_definition, create, save_valid, save_custom, still_here, in_flight, drop_definition,
  delete_custom, hold_custom, release,
}

-- A row whose definition was deleted.
abbrev pub is_tombstone : Option (Option CustomDefinition) → Bool
is_tombstone (some none) = true
is_tombstone _ = false

-- What a save or a delete does: the deploys in flight stay as they are.
pub data TableEffect (s t : State) : Type 0 where
  stays : t.table ≡ s.table → t.deploying ≡ s.deploying → TableEffect s t
  puts :
      (slug : Text) (def : CustomDefinition)
      → is_tombstone (lookup slug s.table) ≡ false
      → t.table ≡ insert slug (some def) s.table
      → t.deploying ≡ s.deploying
      → TableEffect s t
  drops :
      (slug : Text)
      → leb 1 (in_flight slug s) ≡ false
      → t.table ≡ insert slug none s.table
      → t.deploying ≡ s.deploying
      → TableEffect s t

pub data Effect (s t : State) : Type 0 where
  on_table : TableEffect s t → Effect s t
  holds :
      (slug : Text)
      → is_some (get_custom slug s.table) ≡ true
      → t.table ≡ s.table
      → t.deploying ≡ insert slug (suc (in_flight slug s)) s.deploying
      → Effect s t
  releases :
      (slug : Text)
      → t.table ≡ s.table
      → t.deploying ≡ (
          if leb 1 (in_flight slug s - 1)
          then insert slug (in_flight slug s - 1) s.deploying
          else delete slug s.deploying)
      → Effect s t

pub TableEffect-deploying : {s t : State} → TableEffect s t → t.deploying ≡ s.deploying
TableEffect-deploying (TableEffect.stays table deploying) = deploying
TableEffect-deploying (TableEffect.puts slug def live table deploying) = deploying
TableEffect-deploying (TableEffect.drops slug free table deploying) = deploying

no_definition_ends :
    (def : CustomDefinition) → ◌≡◌ {A = Option CustomDefinition} none (some def) → ⊥
no_definition_ends def e = cc

live-is_tombstone :
    (slug : Text) (def : CustomDefinition) (table : Table)
    → get_custom slug table ≡ some def
    → is_tombstone (lookup slug table) ≡ false
unfolding get_custom
live-is_tombstone slug def table h = elim (Option-cases (lookup slug table)) [
  | inl e ↦ rw e refl
  | inr (none, e) ↦ elim (no_definition_ends def (sym (rw (e, get_custom) refl) ∙ h)) [ ]
  | inr (some d, e) ↦ rw e refl
]

module _ (rules : Rules) (own : List Text) where
  put_definition :
      (slug kind : Text) (def : CustomDefinition) (s : State)
      → is_tombstone (lookup slug s.table) ≡ false
      → TableEffect s (save_definition own slug kind def s).0
  unfolding save_definition load_custom record_event
  put_definition slug kind def s h = TableEffect.puts slug def h refl refl

  create-TableEffect : (def : CustomDefinition) (s : State) → TableEffect s (create own def s).0
  unfolding create
  create-TableEffect def s =
      elim (Option-cases (make_custom_slug def.name (custom_slugs s.table))) [
        | inl e ↦ rw (e, create) (TableEffect.stays refl refl)
        | inr (slug, e) ↦ elim (Option-cases (lookup slug s.table)) [
          | inl l ↦ rw (e, l, create) (put_definition slug _ def s (rw l refl))
          | inr (row, l) ↦ rw (e, l, create) (TableEffect.stays refl refl)
        ]
      ]

  save_valid-TableEffect :
      (slug : Text) (valid : Outcome CustomError CustomDefinition) (s : State)
      → (is_empty slug ≡ false → is_tombstone (lookup slug s.table) ≡ false)
      → TableEffect s (save_valid own slug valid s).0
  unfolding save_valid
  save_valid-TableEffect slug (refused why) s h = TableEffect.stays refl refl
  save_valid-TableEffect slug (done def) s h = elim (Bool-cases (is_empty slug)) [
    | inl e ↦ rw e (create-TableEffect def s)
    | inr e ↦ rw e (put_definition slug _ def s (h e))
  ]

  pub save_custom-TableEffect :
      (slug : Text) (typed : CustomDefinition) (s : State)
      → TableEffect s (save_custom rules own slug typed s).0
  unfolding save_custom
  save_custom-TableEffect slug typed s = elim (Bool-cases (is_empty slug)) [
    | inl e ↦ rw e (save_valid-TableEffect slug _ s (λ n. elim (true_not_false (sym e ∙ n)) [ ]))
    | inr e ↦ elim (Bool-cases (is_custom_slug slug)) [
      | inr c ↦ rw (e, c) (TableEffect.stays refl refl)
      | inl c ↦ elim (Option-cases (get_custom slug s.table)) [
        | inl g ↦ rw (e, c, g, save_custom) (TableEffect.stays refl refl)
        | inr (previous, g) ↦
            rw (e, c, g, save_custom)
              (save_valid-TableEffect slug _ s (λ n. live-is_tombstone slug previous s.table g))
      ]
    ]
  ]

  drop_definition-TableEffect :
      (slug : Text) (s : State)
      → leb 1 (in_flight slug s) ≡ false
      → TableEffect s (drop_definition own slug s).0
  unfolding drop_definition load_custom record_event
  drop_definition-TableEffect slug s h = elim (Option-cases (get_custom slug s.table)) [
    | inl g ↦ rw (g, drop_definition) (TableEffect.stays refl refl)
    | inr (def, g) ↦ rw (g, drop_definition) (TableEffect.drops slug h refl refl)
  ]

  pub delete_custom-TableEffect :
      (slug : Text) (recorded : Bool) (containers : Option (List Text)) (s : State)
      → TableEffect s (delete_custom own slug recorded containers s).0
  unfolding delete_custom
  delete_custom-TableEffect slug recorded containers s = elim (Bool-cases (is_custom_slug slug)) [
    | inr c ↦ rw c (TableEffect.stays refl refl)
    | inl c ↦ elim (Bool-cases (leb 1 (in_flight slug s))) [
      | inl f ↦ rw (c, f) (TableEffect.stays refl refl)
      | inr f ↦ elim (Option-cases (still_here slug recorded containers)) [
        | inl n ↦ rw (c, f, n, delete_custom) (drop_definition-TableEffect slug s f)
        | inr (why, n) ↦ rw (c, f, n, delete_custom) (TableEffect.stays refl refl)
      ]
    ]
  ]

pub hold_custom-Effect : (slug : Text) (s : State) → Effect s (hold_custom slug s).0
unfolding hold_custom
hold_custom-Effect slug s = elim (Option-cases (get_custom slug s.table)) [
  | inl g ↦ rw (g, hold_custom) (Effect.on_table (TableEffect.stays refl refl))
  | inr (def, g) ↦ rw (g, hold_custom) (Effect.holds slug (rw g refl) refl refl)
]

pub release-Effect : (slug : Text) (s : State) → Effect s (release slug s)
unfolding release
release-Effect slug s = Effect.releases slug refl refl
