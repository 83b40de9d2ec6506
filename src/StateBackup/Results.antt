-- ===== src/StateBackup/Results.antt =====
-- Results of SplitArchives, and predicates on them along a chain.
use cash_pilot_desktop.Base.{◌≡◌, refl, sym, ◌⊎◌, inl, inr, ◌∙◌}
use cash_pilot_desktop.StateBackup.{Result, ok, failed, bind, Error}

-- What holds of the value of a result, if it has one.
abbrev pub Holds {ℓ} : {A : Type ℓ} → (A → Type 0) → Result A → Type 0
Holds P (ok a) = P a
Holds P (failed _) = Unit

pub bind-Holds {ℓ κ} :
    {A : Type ℓ} {B : Type κ} (P : A → Type 0) (Q : B → Type 0) (r : Result A) (f : A → Result B)
    → Holds P r
    → ((a : A) → P a → Holds Q (f a))
    → Holds Q (bind r f)
bind-Holds P Q (ok a) f h k = k a h
bind-Holds P Q (failed _) f h k = tt

pub ok-injective {ℓ} : {A : Type ℓ} (b a : A) → ok b ≡ ok a → b ≡ a
ok-injective b a e = cc

pub Holds-ok {ℓ} : {A : Type ℓ} (P : A → Type 0) (r : Result A) (a : A) → Holds P r → r ≡ ok a → P a
Holds-ok P (ok b) a h e = rw (sym (ok-injective b a e)) h
Holds-ok P (failed _) a h e = cc

pub Result-cases {ℓ} :
    {A : Type ℓ} (r : Result A) → ((a : A) × (r ≡ ok a)) ⊎ ((why : Error) × (r ≡ failed why))
Result-cases (ok a) = inl (a, refl)
Result-cases (failed why) = inr (why, refl)

failed_ok_ends {ℓ} : {A : Type ℓ} (a : A) (why : Error) → ◌≡◌ {A = Result A} (failed why) (ok a) → ⊥
failed_ok_ends a why e = cc

pub failed_ok {ℓ} :
    {A : Type ℓ} (r : Result A) (a : A) (why : Error) → r ≡ failed why → r ≡ ok a → ⊥
failed_ok r a why f e = failed_ok_ends a why (sym f ∙ e)
