-- ===== src/Mounts/Kept.antt =====
-- About keepLiveMounts of internal/runtime/mounts.go: what each mount is created as.
use cash_pilot_desktop.Base.{
  Bool, true, false, ◌||◌, ◌&&◌, ◌⊎◌, not, Option, some, List, [], ◌∷◌, ◌≡◌, refl, inl, inr, Text,
  text_eq, text_eq_iff, is_empty, Map, lookup, or_else, arith, if◌then◌else◌, Bool-cases,
  Option-cases, lookup-insert,
}
use cash_pilot_desktop.Removal.{normalise_mount_target}
use cash_pilot_desktop.Mounts.{
  Mount, Live, LiveMount, live_mounts_by_target, note_live, is_nil, live_loop, LivePoint,
  requested_sources_by_target, live_source, declared_host_by_target, moved_on_purpose,
  keep_existing, keep_mount, keep_loop, live_env_of, keep_live_mounts, placeholders,
}
use cash_pilot_desktop.Mounts.Stands.{
  Moved, NotMoved, StandsAt, live_mounts-StandsAt, any-Moved, any-NotMoved, Among, NoData,
  live_mounts-NoData,
}

note_live-source :
    (requested : Map Text) (m : LivePoint) (out : Map LiveMount) (t : Text)
    → ((k : LiveMount) → lookup t out ≡ some k → is_empty k.source ≡ false)
    → (l : LiveMount) → lookup t (note_live requested m out) ≡ some l
    → is_empty l.source ≡ false
unfolding note_live
note_live-source requested m out t h l e =
    let target = normalise_mount_target m.destination in
    let source = live_source requested m in
    let new : LiveMount = record { source = source; kind = m.kind; read_only = not m.rw } in
    elim (Bool-cases (is_empty target || is_empty source)) [
      | inl skipped ↦ h l (rw skipped at e)
      | inr noted ↦
          let found : (if text_eq target t then some new else lookup t out) ≡ some l =
            rw (noted, lookup-insert target t new out) at e in
          elim (Bool-cases (text_eq target t)) [
            | inl same ↦ ground arith
            | inr differs ↦ h l (rw differs at found)
          ]
    ]

live_loop-source :
    (requested : Map Text) (t : Text) (ms : List LivePoint) (out : Map LiveMount) {l : LiveMount}
    → ((k : LiveMount) → lookup t out ≡ some k → is_empty k.source ≡ false)
    → lookup t (live_loop requested out ms) ≡ some l
    → is_empty l.source ≡ false
unfolding live_loop
live_loop-source requested t [] out h e = h _ e
live_loop-source requested t (m ∷ ms) out h e =
    live_loop-source requested t ms (note_live requested m out)
      (note_live-source requested m out t h) e

-- No live mount is kept without a source.
live_mounts-source :
    (live : Live) (t : Text) {l : LiveMount}
    → lookup t (live_mounts_by_target live) ≡ some l
    → is_empty l.source ≡ false
unfolding live_mounts_by_target lookup
live_mounts-source live t e =
    live_loop-source (requested_sources_by_target live.host_config) t live.mounts [] (λ k f. cc) e

nil_of_is_nil : (m : Map LiveMount) → is_nil m ≡ true → m ≡ []
nil_of_is_nil [] h = refl
nil_of_is_nil (x ∷ m) h = cc

keep_existing-kind :
    (m : Mount) (l : LiveMount)
    → ((keep_existing m l).0.kind ≡ l.kind) ⊎ ((keep_existing m l).0 ≡ m)
unfolding keep_existing
keep_existing-kind m l =
    elim (Bool-cases (text_eq l.source m.source && not (l.read_only && not m.read_only))) [
      | inl same ↦ inr (rw same refl)
      | inr other ↦ inl (rw other refl)
    ]

-- What holds of a mount of the specification and what it is replaced by.
module _ (declared : List Text) (deploy_env : Map Text) (live : Live) where
  abbrev is_moved : Mount → Bool
  is_moved m =
      let target = normalise_mount_target m.target in
      moved_on_purpose (or_else (lookup target (declared_host_by_target declared)) []) deploy_env
        (live_env_of live)

  -- The fields of the form in the host side of what the catalog declares for the target.
  abbrev pub fields_of : Mount → List Text
  fields_of m =
      placeholders
        (or_else (lookup (normalise_mount_target m.target) (declared_host_by_target declared)) [])

  -- The live mount at the target of a mount.
  abbrev pub live_at : Mount → Option LiveMount
  live_at m = lookup (normalise_mount_target m.target) (live_mounts_by_target live)

  -- No mount that the daemon lists at the target has data to keep.
  abbrev pub NothingAt : Text → Type 0
  NothingAt target =
      (p : LivePoint)
      → Among p live.mounts
      → normalise_mount_target p.destination ≡ target
      → NoData p

  -- The mount `m'` that a mount `m` of the specification is created as.
  pub data CreatedAs (m m' : Mount) : Type 0 where
    nothing_live : NothingAt (normalise_mount_target m.target) → m' ≡ m → CreatedAs m m'
    moved : Moved deploy_env (live_env_of live) (fields_of m) → m' ≡ m → CreatedAs m m'
    kept :
        (l : LiveMount)
        → StandsAt live (normalise_mount_target m.target) l
        → NotMoved deploy_env (live_env_of live) (fields_of m)
        → (m'.kind ≡ l.kind) ⊎ (m' ≡ m)
        → m'.source ≡ l.source
        → m'.target ≡ m.target
        → m'.read_only ≡ (m.read_only || l.read_only)
        → CreatedAs m m'

  abbrev pub AllCreatedAs : List Mount → List Mount → Type 0
  AllCreatedAs [] [] = Unit
  AllCreatedAs (m ∷ ms) (m' ∷ ms') = CreatedAs m m' × AllCreatedAs ms ms'
  AllCreatedAs _ _ = ⊥

  keep_existing-CreatedAs :
      (m : Mount) (l : LiveMount)
      → live_at m ≡ some l
      → is_moved m ≡ false
      → CreatedAs m (keep_existing m l).0
  unfolding keep_existing moved_on_purpose
  keep_existing-CreatedAs m l e f =
      kept l (live_mounts-StandsAt live _ l e)
        (λ key before among at.
          any-NotMoved deploy_env (live_env_of live) key before (fields_of m) f among at)
        (keep_existing-kind m l) (ground (arith, text_eq_iff l.source m.source)) (ground arith)
        (ground arith)

  keep_mount-CreatedAs :
      (m : Mount)
      → CreatedAs m
          (keep_mount
            (live_mounts_by_target live)
            (declared_host_by_target declared)
            deploy_env
            (live_env_of live)
            m).0
  unfolding keep_mount moved_on_purpose
  keep_mount-CreatedAs m = elim (Option-cases (live_at m)) [
    | inl e ↦ rw (e, keep_mount) (nothing_live (live_mounts-NoData live _ e) refl)
    | inr (l, e) ↦
        rw (e, keep_mount)
          (rw (live_mounts-source live _ e) (elim (Bool-cases (is_moved m)) [
            | inl f ↦ rw f (moved (any-Moved deploy_env (live_env_of live) (fields_of m) f) refl)
            | inr f ↦ rw f (keep_existing-CreatedAs m l e f)
          ]))
  ]

  keep_loop-AllCreatedAs :
      (ms : List Mount)
      → AllCreatedAs ms
          (keep_loop
            (live_mounts_by_target live)
            (declared_host_by_target declared)
            deploy_env
            (live_env_of live)
            ms).0
  unfolding keep_loop
  keep_loop-AllCreatedAs [] = tt
  keep_loop-AllCreatedAs (m ∷ ms) = (keep_mount-CreatedAs m, keep_loop-AllCreatedAs ms)

  unchanged : (live_mounts_by_target live ≡ []) → (ms : List Mount) → AllCreatedAs ms ms
  unfolding lookup
  unchanged e [] = tt
  unchanged e (m ∷ ms) =
      (nothing_live (live_mounts-NoData live _ (rw (e, lookup) refl)) refl, unchanged e ms)

  created : (ms : List Mount) → AllCreatedAs ms (keep_live_mounts ms declared deploy_env live).0
  unfolding keep_live_mounts
  created [] = elim (Bool-cases (is_nil (live_mounts_by_target live))) [
    | inl e ↦ rw e tt
    | inr e ↦ rw e tt
  ]
  created (m ∷ ms) = elim (Bool-cases (is_nil (live_mounts_by_target live))) [
    | inl e ↦ rw e (unchanged (nil_of_is_nil _ e) (m ∷ ms))
    | inr e ↦ rw e (keep_loop-AllCreatedAs (m ∷ ms))
  ]

  -- Every mount of the specification is created, in order. It is created as it stands where nothing
  -- with data to keep is mounted at its target now, or where a form field in its host side has another value in the
  -- live container than the submitted one. Otherwise, where no such field has, it is created at the
  -- same target on what the daemon lists there: on the volume of that name, or on the path that the
  -- container was created with there, or was reported with where it was created with none; of the
  -- same type unless it is unchanged, and read-only if either of the two is.
  pub keep_live_mounts-CreatedAs :
      (spec : List Mount) → AllCreatedAs spec (keep_live_mounts spec declared deploy_env live).0
  keep_live_mounts-CreatedAs spec = created spec
