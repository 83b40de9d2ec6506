-- ===== src/Custom/Deploys.antt =====
-- About holdCustom, its release and DeleteCustom of internal/services/custom.go: the deploys that hold a service.
use cash_pilot_desktop.Base.{
  ℕ, suc, ◌+◌, ◌-◌, Bool, true, Option, List, [], ◌∷◌, ◌++◌, ◌≡◌, refl, sym, ap, ◌∙◌, inl, inr,
  Text, text_eq, text_eq_iff, lookup, insert, is_some, or_else, Map, if◌then◌else◌, leb,
  Option-cases, arith, All, Outcome, done, refused,
}
use cash_pilot_desktop.Catalog.{Service}
use cash_pilot_desktop.Custom.{CustomDefinition, CustomError, unknown_custom}
use cash_pilot_desktop.Custom.Shown.{custom_as_service}
use cash_pilot_desktop.Custom.Validate.{Rules}
use cash_pilot_desktop.Custom.Manage.{
  State, get_custom, save_custom, in_flight, delete_custom, hold_custom, release,
}
use cash_pilot_desktop.Custom.Effects.{
  TableEffect-deploying, save_custom-TableEffect, delete_custom-TableEffect,
}
use cash_pilot_desktop.Custom.Held.{Reach, Step, Reach-KeepsHeld, flights-insert, flights-delete}

-- A run of the operations, with the services of the deploys that it has begun and not ended. A deploy
-- begins where the service is handed out, and its release runs once.
pub data Run (rules : Rules) (own : List Text) (s : State) : State → List Text → Type 0 where
  here : Run rules own s s []
  saved :
      {t : State} {active : List Text} (slug : Text) (typed : CustomDefinition)
      → Run rules own s t active
      → Run rules own s (save_custom rules own slug typed t).0 active
  deleted :
      {t : State} {active : List Text} (slug : Text) (recorded : Bool)
      (containers : Option (List Text))
      → Run rules own s t active
      → Run rules own s (delete_custom own slug recorded containers t).0 active
  begun :
      {t : State} {active : List Text} (slug : Text) (svc : Service)
      → (hold_custom slug t).1 ≡ done svc
      → Run rules own s t active
      → Run rules own s (hold_custom slug t).0 (slug ∷ active)
  not_begun :
      {t : State} {active : List Text} (slug : Text) (why : CustomError)
      → (hold_custom slug t).1 ≡ refused why
      → Run rules own s t active
      → Run rules own s (hold_custom slug t).0 active
  ended :
      {t : State} (slug : Text) (before after : List Text)
      → Run rules own s t (before ++ slug ∷ after)
      → Run rules own s (release slug t) (before ++ after)

Run-Reach :
    (rules : Rules) (own : List Text) (s t : State) (active : List Text)
    → Run rules own s t active
    → Reach rules own s t
Run-Reach rules own s _ _ Run.here = Reach.here
Run-Reach rules own s _ active (Run.saved {t = t} slug typed run) =
    Reach.next (Run-Reach rules own s t active run) (Step.saved slug typed t)
Run-Reach rules own s _ active (Run.deleted {t = t} slug recorded containers run) =
    Reach.next (Run-Reach rules own s t active run) (Step.deleted slug recorded containers t)
Run-Reach rules own s _ _ (Run.begun {t = t} {active = active} slug svc e run) =
    Reach.next (Run-Reach rules own s t active run) (Step.held slug t)
Run-Reach rules own s _ active (Run.not_begun {t = t} slug why e run) =
    Reach.next (Run-Reach rules own s t active run) (Step.held slug t)
Run-Reach rules own s _ _ (Run.ended {t = t} slug before after run) =
    Reach.next (Run-Reach rules own s t (before ++ slug ∷ after) run) (Step.released slug t)

abbrev pub copies : Text → List Text → ℕ
copies slug [] = 0
copies slug (other ∷ active) = (if text_eq other slug then 1 else 0) + copies slug active

copies-middle :
    (slug other : Text) (before after : List Text)
    → copies other (before ++ slug ∷ after)
      ≡ (if text_eq slug other then 1 else 0) + copies other (before ++ after)
copies-middle slug other [] after = refl
copies-middle slug other (b ∷ before) after = omega (arith, copies-middle slug other before after)

-- The counter of each service is the number of its deploys.
abbrev pub Counted : State → List Text → Type 0
Counted s active = (slug : Text) → in_flight slug s ≡ copies slug active

in_flight-same :
    (s t : State) (slug : Text) → t.deploying ≡ s.deploying → in_flight slug t ≡ in_flight slug s
unfolding in_flight
in_flight-same s t slug e = ap (λ d. or_else (lookup slug d) 0) e

other_outcome :
    (svc : Service) (why : CustomError)
    → ◌≡◌ {A = Outcome CustomError Service} (done svc) (refused why)
    → ⊥
other_outcome svc why e = cc

flights_begun :
    (slug other : Text) (deploying : Map ℕ)
    → or_else (lookup other (insert slug (suc (or_else (lookup slug deploying) 0)) deploying)) 0
      ≡ (if text_eq slug other then 1 else 0) + or_else (lookup other deploying) 0
flights_begun slug other deploying = ground (
  arith,
  flights-insert slug other (suc (or_else (lookup slug deploying) 0)) deploying,
  text_eq_iff slug other,
)

in_flight-begun :
    (slug other : Text) (s : State) (svc : Service)
    → (hold_custom slug s).1 ≡ done svc
    → in_flight other (hold_custom slug s).0
      ≡ (if text_eq slug other then 1 else 0) + in_flight other s
unfolding hold_custom in_flight
in_flight-begun slug other s svc e = elim (Option-cases (get_custom slug s.table)) [
  | inl g ↦ elim (other_outcome svc (unknown_custom slug) (sym e ∙ rw (g, hold_custom) refl)) [ ]
  | inr (def, g) ↦ rw (g, hold_custom) (flights_begun slug other s.deploying)
]

in_flight-not_begun :
    (slug : Text) (s : State) (why : CustomError)
    → (hold_custom slug s).1 ≡ refused why
    → (hold_custom slug s).0.deploying ≡ s.deploying
unfolding hold_custom
in_flight-not_begun slug s why e = elim (Option-cases (get_custom slug s.table)) [
  | inl g ↦ rw (g, hold_custom) refl
  | inr (def, g) ↦
      elim (other_outcome (custom_as_service slug def true) why
        (sym (rw (g, hold_custom) refl) ∙ e)) [ ]
]

in_flight-release :
    (slug other : Text) (s : State)
    → in_flight other (release slug s) ≡ in_flight other s - (if text_eq slug other then 1 else 0)
unfolding release in_flight
in_flight-release slug other s =
    let left = or_else (lookup slug s.deploying) 0 - 1 in
    ground (
      arith,
      flights-insert slug other left s.deploying,
      flights-delete slug other s.deploying,
      text_eq_iff slug other,
    )

Run-Counted :
    (rules : Rules) (own : List Text) (s t : State) (active : List Text)
    → s.deploying ≡ []
    → Run rules own s t active
    → Counted t active
unfolding in_flight lookup
Run-Counted rules own s _ _ none_held Run.here slug = rw none_held refl
Run-Counted rules own s _ active none_held (Run.saved {t = t} slug typed run) other =
    in_flight-same t (save_custom rules own slug typed t).0 other
      (TableEffect-deploying (save_custom-TableEffect rules own slug typed t))
    ∙ Run-Counted rules own s t active none_held run other
Run-Counted rules own s _ active none_held (Run.deleted {t = t} slug recorded containers run)
      other =
    in_flight-same t (delete_custom own slug recorded containers t).0 other
      (TableEffect-deploying (delete_custom-TableEffect rules own slug recorded containers t))
    ∙ Run-Counted rules own s t active none_held run other
Run-Counted rules own s _ _ none_held (Run.begun {t = t} {active = active} slug svc e run) other =
    in_flight-begun slug other t svc e
    ∙ ap (λ n. (if text_eq slug other then 1 else 0) + n)
        (Run-Counted rules own s t active none_held run other)
Run-Counted rules own s _ active none_held (Run.not_begun {t = t} slug why e run) other =
    in_flight-same t (hold_custom slug t).0 other (in_flight-not_begun slug t why e)
    ∙ Run-Counted rules own s t active none_held run other
Run-Counted rules own s _ _ none_held (Run.ended {t = t} slug before after run) other =
    let counted = Run-Counted rules own s t (before ++ slug ∷ after) none_held run other in
    in_flight-release slug other t ∙ omega (arith, counted, copies-middle slug other before after)

All-copies :
    (P : Text → Type 0) (active : List Text)
    → ((slug : Text) → leb 1 (copies slug active) ≡ true → P slug)
    → All P active
All-copies P [] h = tt
All-copies P (slug ∷ active) h = (
  h slug (ground (arith, text_eq_iff slug slug)),
  All-copies P active (λ other one. h other (ground (arith, one))),
)

-- In every run from a state with no deploy in flight, each deploy that was begun and has not ended
-- finds its definition still there, and the counter of a service is the number of its deploys that
-- were begun and have not ended, so that none is left when they have ended.
pub Run-keeps_active :
    (rules : Rules) (own : List Text) (s t : State) (active : List Text)
    → s.deploying ≡ []
    → Run rules own s t active
    → All (λ slug. is_some (get_custom slug t.table) ≡ true) active × Counted t active
Run-keeps_active rules own s t active none_held run =
    let counted = Run-Counted rules own s t active none_held run in
    let kept = Reach-KeepsHeld rules own s t none_held (Run-Reach rules own s t active run) in
    (All-copies _ active (λ slug one. kept slug (rw (counted slug) one)), counted)
