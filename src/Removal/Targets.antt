-- ===== src/Removal/Targets.antt =====
-- About planFromMounts and normaliseMountTarget of internal/runtime/removal.go: critical mounts.
use mathlib.Core.List.{reverse-append, reverse-reverse}
use cash_pilot_desktop.Base.{
  ℕ, Bool, true, false, ◌&&◌, ◌||◌, not, Option, none, some, List, [], ◌∷◌, ◌++◌, reverse, ◌≡◌,
  refl, ◌∙◌, ap, sym, Text, text_eq, text_eq_iff, codes, is_empty, Map, lookup, insert,
  lookup-insert, if◌then◌else◌, any, any-append, any-sort, is_some, arith, or_false, or_assoc,
  or_true, trim_space, trim_right, drop_while, is_space, ◌==◌,
}
use cash_pilot_desktop.Catalog.{CriticalVolume, Service}
use cash_pilot_desktop.Removal.{
  MountPoint, volume, bind, other, entries, volume_entry, target_less, plan_from_mounts, holds_at,
  has_critical, critical_loop, critical_targets, normalise_mount_target,
}

-- A catalog entry's critical volume stands for this target.
abbrev pub names_target : Text → CriticalVolume → Bool
names_target t cv = not (is_empty t) && text_eq (normalise_mount_target cv.target) t

step_lookup :
    (t : Text) (m : Map Text) (target holds : Text)
    → is_some (lookup t (if is_empty target then m else insert target holds m))
      ≡ (is_some (lookup t m) || (not (is_empty t) && text_eq target t))
step_lookup t m [] holds = ground (arith, text_eq_iff [] t)
step_lookup t m (c ∷ u) holds =
    rw (lookup-insert (c ∷ u) t holds m)
      (ground (arith, text_eq_iff (c ∷ u) t, or_true (is_some (lookup t m))))

critical_loop-lookup :
    (t : Text) (cvs : List CriticalVolume) (m : Map Text)
    → is_some (lookup t (critical_loop m cvs)) ≡ (is_some (lookup t m) || any (names_target t) cvs)
unfolding critical_loop
critical_loop-lookup t [] m = or_false (is_some (lookup t m))
critical_loop-lookup t (cv ∷ cvs) m =
    let target = normalise_mount_target cv.target in
    let n = if is_empty target then m else insert target (trim_space cv.holds) m in
    critical_loop-lookup t cvs n
    ∙ rw (step_lookup t m target (trim_space cv.holds))
        (or_assoc (is_some (lookup t m)) (names_target t cv) (any (names_target t) cvs))

-- A mount of a named volume at a target for which the catalog declares a loss, or for which nobody
-- could say.
abbrev pub is_named : MountPoint → Bool
is_named m = elim m.kind [ volume ↦ not (is_empty m.name) | bind ↦ false | other ↦ false ]

abbrev pub declares : Option (Map Text) → Text → Bool
declares none t = true
declares (some critical) t = is_some (lookup t critical)

abbrev pub is_critical_mount : Option (Map Text) → MountPoint → Bool
is_critical_mount critical m =
    is_named m && declares critical (normalise_mount_target m.destination)

volume_entry-critical :
    (critical : Option (Map Text)) (m : MountPoint)
    → any (λ v. v.critical) (volume_entry critical m) ≡ is_critical_mount critical m
unfolding volume_entry holds_at
volume_entry-critical critical m = ground arith

entries-critical :
    (critical : Option (Map Text)) (ms : List MountPoint)
    → any (λ v. v.critical) (entries volume_entry critical ms) ≡ any (is_critical_mount critical) ms
unfolding entries
entries-critical critical [] = refl
entries-critical critical (m ∷ ms) =
    any-append (λ v. v.critical) (volume_entry critical m) (entries volume_entry critical ms)
    ∙ rw (volume_entry-critical critical m, entries-critical critical ms)

-- A plan holds a critical volume exactly when a named volume is mounted at a target that the
-- catalog declares, or at any target where no catalog could be read; and the catalog declares a
-- target exactly when it is not empty and one of the entry's critical volumes normalises to it.
pub plan_from_mounts-critical :
    (slug name : Text) (ms : List MountPoint) (critical : Option (Map Text)) (svc : Service)
    (t : Text)
    → (has_critical (plan_from_mounts slug name ms critical) ≡ any (is_critical_mount critical) ms)
      × (declares (some (critical_targets svc)) t
          ≡ any (names_target t) svc.docker.critical_volumes)
unfolding has_critical plan_from_mounts critical_targets lookup
plan_from_mounts-critical slug name ms critical svc t = (
  any-sort target_less (λ v. v.critical) (entries volume_entry critical ms)
      ∙ entries-critical critical ms,
  critical_loop-lookup t svc.docker.critical_volumes [],
)

drop_while_stops :
    (test : ℕ → Bool) (c : ℕ) (s : Text) → test c ≡ false → drop_while test (c ∷ s) ≡ c ∷ s
unfolding drop_while
drop_while_stops test c s h = rw h

abbrev Ends : Text → Type 0
Ends [] = ⊥
Ends (c ∷ s) = (is_space c ≡ false) × ((c == b'/') ≡ false)

-- A path that neither starts nor ends in a space, and does not end in a slash.
abbrev pub IsBare : Text → Type 0
IsBare [] = ⊥
IsBare (c ∷ s) = (is_space c ≡ false) × Ends (reverse (c ∷ s))

slash_no_space : is_space b'/' ≡ false
unfolding is_space
slash_no_space = refl

-- A text that starts with `c` and, read backwards, with `d`.
module _ (c d : ℕ) (s v : Text) (ends : reverse (c ∷ s) ≡ d ∷ v) where
  back : reverse (d ∷ v) ≡ c ∷ s
  back = ap reverse (sym ends) ∙ reverse-reverse (c ∷ s)

  trim_space_self : is_space c ≡ false → is_space d ≡ false → trim_space (c ∷ s) ≡ c ∷ s
  unfolding trim_space
  trim_space_self hc hd =
      rw (drop_while_stops is_space c s hc) (rw (ends, drop_while_stops is_space d v hd) back)

  trim_right_self : (d == b'/') ≡ false → trim_right b'/' (c ∷ s) ≡ c ∷ s
  unfolding trim_right
  trim_right_self h = rw ends (rw (drop_while_stops (λ x. x == b'/') d v h) back)

  trim_right-slash : (d == b'/') ≡ false → trim_right b'/' (c ∷ (s ++ b'/' ∷ [])) ≡ c ∷ s
  unfolding trim_right drop_while
  trim_right-slash h =
      rw (reverse-append (c ∷ s) (b'/' ∷ []), ends)
        (rw (drop_while_stops (λ x. x == b'/') d v h) back)

  trim_space-slash : is_space c ≡ false → trim_space (c ∷ (s ++ b'/' ∷ [])) ≡ c ∷ (s ++ b'/' ∷ [])
  unfolding trim_space
  trim_space-slash hc =
      let slashed = c ∷ (s ++ b'/' ∷ []) in
      let turned : reverse slashed ≡ b'/' ∷ reverse (c ∷ s) = reverse-append (c ∷ s) (b'/' ∷ []) in
      ap (λ t. reverse (drop_while is_space (reverse t)))
        (drop_while_stops is_space c (s ++ b'/' ∷ []) hc)
      ∙ ap (λ t. reverse (drop_while is_space t)) turned
      ∙ ap reverse (drop_while_stops is_space b'/' (reverse (c ∷ s)) slash_no_space)
      ∙ ap reverse (sym turned)
      ∙ reverse-reverse slashed

not_slash : (c : ℕ) (s : Text) → text_eq (c ∷ (s ++ b'/' ∷ [])) (codes "/") ≡ false
unfolding text_eq
not_slash c [] = ground arith
not_slash c (x ∷ s) = ground arith

normalise-slash_of :
    (c d : ℕ) (s v : Text)
    → reverse (c ∷ s) ≡ d ∷ v
    → is_space c ≡ false
    → is_space d ≡ false
    → (d == b'/') ≡ false
    → (normalise_mount_target (c ∷ s) ≡ c ∷ s)
      × (normalise_mount_target (c ∷ (s ++ b'/' ∷ [])) ≡ c ∷ s)
unfolding normalise_mount_target
normalise-slash_of c d s v e hc hd h = (
  rw (trim_space_self c d s v e hc hd, trim_right_self c d s v e h) (root (c ∷ s)),
  rw (trim_space-slash c d s v e hc, not_slash c s) (trim_right-slash c d s v e h),
)
  where
    root : (t : Text) → (if text_eq t (codes "/") then codes "/" else t) ≡ t
    root t = ground (arith, text_eq_iff t (codes "/"))

-- A bare path is its own normal form, and is that of the same path with a slash behind it.
pub normalise-slash :
    (t : Text)
    → IsBare t
    → (normalise_mount_target t ≡ t) × (normalise_mount_target (t ++ b'/' ∷ []) ≡ t)
normalise-slash [] h = absurd h
normalise-slash (c ∷ s) h = by_end (reverse (c ∷ s)) refl h.1
  where
    by_end :
        (r : Text)
        → reverse (c ∷ s) ≡ r
        → Ends r
        → (normalise_mount_target (c ∷ s) ≡ c ∷ s)
          × (normalise_mount_target ((c ∷ s) ++ b'/' ∷ []) ≡ c ∷ s)
    by_end [] e k = absurd k
    by_end (d ∷ v) e k = normalise-slash_of c d s v e h.0 k.0 k.1
