-- ===== src/Custom/Held.antt =====
-- About SaveCustom, DeleteCustom and holdCustom of internal/services/custom.go: what a run of them keeps.
use cash_pilot_desktop.Base.{
  ℕ, suc, ◌-◌, Bool, true, Option, none, some, List, [], ◌≡◌, refl, sym, ap, ◌∙◌, inl, inr, Text,
  text_eq, text_eq_iff, lookup, insert, delete, lookup-insert, lookup-delete, is_some, or_else, Map,
  if◌then◌else◌, leb, Bool-cases, arith, true_not_false,
}
use cash_pilot_desktop.Custom.{CustomDefinition}
use cash_pilot_desktop.Custom.Validate.{Rules}
use cash_pilot_desktop.Custom.Manage.{
  Table, State, get_custom, save_custom, in_flight, delete_custom, hold_custom, release,
}
use cash_pilot_desktop.Custom.Effects.{
  Effect, TableEffect, save_custom-TableEffect, delete_custom-TableEffect, hold_custom-Effect,
  release-Effect,
}

-- A call of one of the operations, or the release of a deploy.
pub data Step (rules : Rules) (own : List Text) : State → State → Type 0 where
  saved :
      (slug : Text) (typed : CustomDefinition) (s : State)
      → Step rules own s (save_custom rules own slug typed s).0
  deleted :
      (slug : Text) (recorded : Bool) (containers : Option (List Text)) (s : State)
      → Step rules own s (delete_custom own slug recorded containers s).0
  held : (slug : Text) (s : State) → Step rules own s (hold_custom slug s).0
  released : (slug : Text) (s : State) → Step rules own s (release slug s)

pub data Reach (rules : Rules) (own : List Text) (s : State) : State → Type 0 where
  here : Reach rules own s s
  next : {t u : State} → Reach rules own s t → Step rules own t u → Reach rules own s u

Step-Effect : (rules : Rules) (own : List Text) (s t : State) → Step rules own s t → Effect s t
Step-Effect rules own _ _ (Step.saved slug typed s) =
    Effect.on_table (save_custom-TableEffect rules own slug typed s)
Step-Effect rules own _ _ (Step.deleted slug recorded containers s) =
    Effect.on_table (delete_custom-TableEffect rules own slug recorded containers s)
Step-Effect rules own _ _ (Step.held slug s) = hold_custom-Effect slug s
Step-Effect rules own _ _ (Step.released slug s) = release-Effect slug s

-- The state keeps the definition of every service with a deploy in flight.
abbrev pub KeepsHeld : State → Type 0
KeepsHeld s =
    (slug : Text) → leb 1 (in_flight slug s) ≡ true → is_some (get_custom slug s.table) ≡ true

get_custom-insert :
    (slug other : Text) (row : Option CustomDefinition) (table : Table)
    → get_custom other (insert slug row table)
      ≡ (if text_eq slug other then row else get_custom other table)
unfolding get_custom
get_custom-insert slug other row table = elim (Bool-cases (text_eq slug other)) [
  | inl e ↦ rw (get_custom, lookup-insert slug other row table, e) refl
  | inr e ↦ rw (get_custom, lookup-insert slug other row table, e) refl
]

pub flights-insert :
    (slug other : Text) (n : ℕ) (deploying : Map ℕ)
    → or_else (lookup other (insert slug n deploying)) 0
      ≡ (if text_eq slug other then n else or_else (lookup other deploying) 0)
flights-insert slug other n deploying = elim (Bool-cases (text_eq slug other)) [
  | inl e ↦ rw (lookup-insert slug other n deploying, e) refl
  | inr e ↦ rw (lookup-insert slug other n deploying, e) refl
]

pub flights-delete :
    (slug other : Text) (deploying : Map ℕ)
    → or_else (lookup other (delete slug deploying)) 0
      ≡ (if text_eq slug other then 0 else or_else (lookup other deploying) 0)
flights-delete slug other deploying = elim (Bool-cases (text_eq slug other)) [
  | inl e ↦ rw (lookup-delete slug other deploying, e) refl
  | inr e ↦ rw (lookup-delete slug other deploying, e) refl
]

-- A deploy that is in flight after a release was so before.
flights_before :
    (slug other : Text) (deploying : Map ℕ)
    → let left = or_else (lookup slug deploying) 0 - 1 in
      leb 1 (
          or_else
            (lookup other
              (if leb 1 left then insert slug left deploying else delete slug deploying))
            0)
        ≡ true
      → leb 1 (or_else (lookup other deploying) 0) ≡ true
flights_before slug other deploying h =
    let left = or_else (lookup slug deploying) 0 - 1 in
    ground (
      arith,
      h,
      flights-insert slug other left deploying,
      flights-delete slug other deploying,
      text_eq_iff slug other,
    )

Effect-KeepsHeld : (s t : State) → Effect s t → KeepsHeld s → KeepsHeld t
unfolding in_flight
Effect-KeepsHeld s t (Effect.on_table (TableEffect.stays table deploying)) h other f =
    rw table (h other (rw (sym deploying) f))
Effect-KeepsHeld s t (Effect.on_table (TableEffect.puts slug def live table deploying)) h other f =
    rw (table, get_custom-insert slug other (some def) s.table)
      (elim (Bool-cases (text_eq slug other)) [
        | inl e ↦ rw e refl
        | inr e ↦ rw e (h other (rw (sym deploying) f))
      ])
Effect-KeepsHeld s t (Effect.on_table (TableEffect.drops slug free table deploying)) h other f =
    let flying : leb 1 (in_flight other s) ≡ true = rw (sym deploying) f in
    rw (table, get_custom-insert slug other none s.table)
      (elim (Bool-cases (text_eq slug other)) [
        | inl e ↦
            let same : in_flight slug s ≡ in_flight other s =
              ap (λ q. in_flight q s) ((text_eq_iff slug other).0 e) in
            elim (true_not_false (sym flying ∙ ap (leb 1) (sym same) ∙ free)) [ ]
        | inr e ↦ rw e (h other flying)
      ])
Effect-KeepsHeld s t (Effect.holds slug live table deploying) h other f =
    rw table (elim (Bool-cases (text_eq slug other)) [
      | inl e ↦ rw (sym ((text_eq_iff slug other).0 e)) live
      | inr e ↦
          let unchanged = flights-insert slug other (suc (in_flight slug s)) s.deploying in
          let same : in_flight other t ≡ in_flight other s = rw deploying (unchanged ∙ rw e refl) in
          h other (sym (ap (leb 1) same) ∙ f)
    ])
Effect-KeepsHeld s t (Effect.releases slug table deploying) h other f =
    rw table (h other (flights_before slug other s.deploying (rw (sym deploying) f)))

pub Reach-KeepsHeld :
    (rules : Rules) (own : List Text) (s t : State)
    → s.deploying ≡ []
    → Reach rules own s t
    → KeepsHeld t
unfolding in_flight lookup
Reach-KeepsHeld rules own s _ none_held Reach.here =
    λ slug f. elim (true_not_false (sym f ∙ rw none_held refl)) [ ]
Reach-KeepsHeld rules own s u none_held (Reach.next {t = t} run step) =
    Effect-KeepsHeld t u (Step-Effect rules own t u step)
      (Reach-KeepsHeld rules own s t none_held run)
