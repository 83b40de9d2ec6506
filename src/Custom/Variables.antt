-- ===== src/Custom/Variables.antt =====
-- About validateCustomEnv of internal/services/custom.go: the variables that are stored.
use cash_pilot_desktop.Base.{
  true, false, ◌||◌, Option, List, [], ◌∷◌, ◌++◌, map, ◌≡◌, refl, sym, ap, ◌∙◌, inl, inr, Text,
  text_eq, text_eq_iff, contains, trim_space, Map, All, append_nil, append_assoc, ltb, length,
  Bool-cases, true_not_false, or_true, Meets, Meets-map, none, some, ◌&&◌, lookup, insert,
  lookup-insert, is_empty, or_else, if◌then◌else◌, Option-cases, arith,
}
use cash_pilot_desktop.Custom.{CustomEnv, CustomDefinition, max_env, max_env_value}
use cash_pilot_desktop.Custom.Shown.{has_char}
use cash_pilot_desktop.Custom.Validate.{
  byte_length, is_env_key, stored_secrets, kept_value, validate_env_loop, validate_custom_env,
  env_of,
}

abbrev stored_as : Map Text → CustomEnv → CustomEnv
stored_as stored item = record {
  key = trim_space item.key;
  value = kept_value stored (trim_space item.key) item.value;
  secret = item.secret;
}

abbrev pub Distinct : List CustomEnv → Type 0
Distinct [] = Unit
Distinct (e ∷ env) = All (λ f. text_eq e.key f.key ≡ false) env × Distinct env

-- What the loop tests, with the names seen so far.
abbrev Tested : List Text → List CustomEnv → Type 0
Tested seen [] = Unit
Tested seen (e ∷ env) =
    (is_env_key e.key ≡ true) × (contains seen e.key ≡ false) × Tested (e.key ∷ seen) env

module _ (stored : Map Text) where
  abbrev all_stored : List CustomEnv → List CustomEnv
  all_stored items = map (stored_as stored) items

  loop-Tested :
      (seen : List Text) (out items : List CustomEnv)
      → Meets
          (λ env. (env ≡ out ++ all_stored items) × Tested seen (all_stored items))
          (validate_env_loop stored seen out items)
  unfolding validate_env_loop
  loop-Tested seen out [] = (sym (append_nil out), tt)
  loop-Tested seen out (item ∷ items) =
      let e = stored_as stored item in
      elim (Bool-cases (is_env_key e.key)) [
        | inr k ↦ rw k tt
        | inl k ↦ elim (Bool-cases (contains seen e.key)) [
          | inl c ↦ rw (k, c) tt
          | inr c ↦
              elim (Bool-cases (ltb max_env_value (byte_length e.value) || has_char 0 e.value)) [
                | inl v ↦ rw (k, c, v) tt
                | inr v ↦
                    rw (k, c, v)
                      (Meets-map
                        (λ env.
                          (env ≡ (out ++ e ∷ []) ++ all_stored items)
                          × Tested (e.key ∷ seen) (all_stored items))
                        _ _ (λ env (same, rest). (same ∙ append_assoc out _ _, (refl, refl, rest)))
                        (loop-Tested (e.key ∷ seen) (out ++ e ∷ []) items))
              ]
        ]
      ]

in_longer : (seen : List Text) (a b : Text) → contains seen a ≡ true → contains (b ∷ seen) a ≡ true
in_longer seen a b h = rw h (or_true (text_eq b a))

differ :
    (seen : List Text) (a b : Text)
    → contains seen a ≡ true
    → contains seen b ≡ false
    → text_eq a b ≡ false
differ seen a b h c = elim (Bool-cases (text_eq a b)) [
  | inl e ↦
      let same = ap (contains seen) ((text_eq_iff a b).0 e) in
      elim (true_not_false (sym h ∙ same ∙ c)) [ ]
  | inr e ↦ e
]

Tested-apart :
    (seen : List Text) (key : Text) (env : List CustomEnv)
    → contains seen key ≡ true
    → Tested seen env
    → All (λ f. text_eq key f.key ≡ false) env
Tested-apart seen key [] h tested = tt
Tested-apart seen key (e ∷ env) h (k, c, rest) = (
  differ seen key e.key h c,
  Tested-apart (e.key ∷ seen) key env (in_longer seen key e.key h) rest,
)

Tested-Distinct : (seen : List Text) (env : List CustomEnv) → Tested seen env → Distinct env
Tested-Distinct seen [] tested = tt
Tested-Distinct seen (e ∷ env) (k, c, rest) = (
  Tested-apart (e.key ∷ seen) e.key env (rw ((text_eq_iff e.key e.key).1 refl) refl) rest,
  Tested-Distinct (e.key ∷ seen) env rest,
)

Tested-is_env_key :
    (seen : List Text) (env : List CustomEnv)
    → Tested seen env
    → All (λ e. is_env_key e.key ≡ true) env
Tested-is_env_key seen [] tested = tt
Tested-is_env_key seen (e ∷ env) (k, c, rest) = (k, Tested-is_env_key (e.key ∷ seen) env rest)

-- The secret that the definition has under a name, the last where it has several.
abbrev pub secret_of : Text → List CustomEnv → Option Text
secret_of key [] = none
secret_of key (e ∷ env) = elim (secret_of key env) [
  | some value ↦ some value
  | none ↦ if e.secret && text_eq e.key key then some e.value else none
]

lookup-stored_secrets :
    (key : Text) (stored : Map Text) (env : List CustomEnv)
    → lookup key (stored_secrets stored env) ≡ elim (secret_of key env) as (λ _. Option Text) [
      | some value ↦ some value
      | none ↦ lookup key stored
    ]
unfolding stored_secrets
lookup-stored_secrets key stored [] = refl
lookup-stored_secrets key stored (e ∷ env) =
    let before = if e.secret then insert e.key e.value stored else stored in
    lookup-stored_secrets key before env ∙ elim (Option-cases (secret_of key env)) [
      | inr (value, s) ↦ rw s refl
      | inl s ↦ rw s (ground (arith, lookup-insert e.key key e.value stored))
    ]

-- A variable of the form as it is stored over a definition: one that is left blank keeps the secret
-- of its name.
abbrev pub stored_over : List CustomEnv → CustomEnv → CustomEnv
stored_over before item = record {
  key = trim_space item.key;
  value =
      if is_empty item.value
      then or_else (secret_of (trim_space item.key) before) []
      else item.value;
  secret = item.secret;
}

kept_value-blank :
    (before : List CustomEnv) (key value : Text)
    → kept_value (stored_secrets [] before) key value
      ≡ (if is_empty value then or_else (secret_of key before) [] else value)
unfolding kept_value lookup
kept_value-blank before key [] = elim (Option-cases (secret_of key before)) [
  | inl s ↦ rw (lookup-stored_secrets key [] before, s, kept_value) refl
  | inr (old, s) ↦ rw (lookup-stored_secrets key [] before, s, kept_value) refl
]
kept_value-blank before key (c ∷ value) = elim (Option-cases (secret_of key before)) [
  | inl s ↦ rw (lookup-stored_secrets key [] before, s, kept_value) refl
  | inr (old, s) ↦ rw (lookup-stored_secrets key [] before, s, kept_value) refl
]

all_stored_over :
    (before items : List CustomEnv)
    → map (stored_as (stored_secrets [] before)) items ≡ map (stored_over before) items
all_stored_over before [] = refl
all_stored_over before (item ∷ items) =
    rw (kept_value-blank before (trim_space item.key) item.value, all_stored_over before items) refl

-- What is stored for the variables of a form, over the secrets of the definition that is edited.
abbrev pub AreStored : List CustomEnv → Option CustomDefinition → List CustomEnv → Type 0
AreStored items previous env =
    (env ≡ map (stored_over (env_of previous)) items)
    × Distinct env
    × All (λ e. is_env_key e.key ≡ true) env

-- The variables that are accepted are those of the form in their order, under trimmed names that
-- are well formed and differ from each other, and a value left blank is the stored secret of its
-- name where the definition that is edited has one.
pub validate_custom_env-AreStored :
    (items : List CustomEnv) (previous : Option CustomDefinition)
    → Meets (AreStored items previous) (validate_custom_env items previous)
unfolding validate_custom_env
validate_custom_env-AreStored items previous =
    let stored = stored_secrets [] (env_of previous) in
    let env = map (stored_as stored) items in
    elim (Bool-cases (ltb max_env (length items))) [
      | inl l ↦ rw l tt
      | inr l ↦ rw l (
          Meets-map (λ found. (found ≡ env) × Tested [] env) (AreStored items previous) _
            (λ found (same, tested). (
              same ∙ all_stored_over (env_of previous) items,
              rw same (Tested-Distinct [] env tested),
              rw same (Tested-is_env_key [] env tested),
            ))
            (loop-Tested stored [] [] items))
    ]
