-- ===== src/Mounts/Stands.antt =====
-- About liveMountsByTarget, requestedSourcesByTarget and movedOnPurpose of internal/runtime/mounts.go: which
-- data stands at a target, and when its path was changed on purpose.
use cash_pilot_desktop.Base.{
  true, false, ◌||◌, not, Option, none, some, List, [], ◌∷◌, ◌≡◌, refl, sym, ◌∙◌, inl, inr, ◌⊎◌,
  Text, text_eq, text_eq_iff, is_empty, Map, lookup, insert, or_else, any, arith, if◌then◌else◌,
  Bool-cases, Option-cases, lookup-insert, true_not_false,
}
use mathlib.Core.Path.{subst}
use cash_pilot_desktop.Removal.{normalise_mount_target}
use cash_pilot_desktop.Mounts.{
  Mount, Live, LiveMount, LivePoint, is_volume, live_mounts_by_target, note_live, live_loop,
  requested_loop, requested_sources_by_target, live_source, field_moved,
}

pub data Among {ℓ} {A : Type ℓ} (a : A) : List A → Type ℓ where
  first : {xs : List A} → Among a (a ∷ xs)
  later : {xs : List A} (x : A) → Among a xs → Among a (x ∷ xs)

-- The container was created with this source at the target.
abbrev pub IsAsked : List Mount → Text → Text → Type 0
IsAsked asked target source =
    (q : Mount) × Among q asked × (normalise_mount_target q.target ≡ target) × (q.source ≡ source)

abbrev pub NotAsked : List Mount → Text → Type 0
NotAsked asked target =
    (q : Mount)
    → Among q asked
    → normalise_mount_target q.target ≡ target
    → is_empty q.source ≡ true

some_same : (a b : LiveMount) → some a ≡ some b → a ≡ b
some_same a b e = cc

requested_loop-holds :
    (P : Text → Type 0) (t s : Text) (out : Map Text) (ms : List Mount)
    → ((r : Text) → lookup t out ≡ some r → P r)
    → ((q : Mount)
        → Among q ms
        → normalise_mount_target q.target ≡ t
        → is_empty q.source ≡ false
        → P q.source)
    → lookup t (requested_loop out ms) ≡ some s
    → P s
unfolding requested_loop
requested_loop-holds P t s out [] h k e = h s e
requested_loop-holds P t s out (m ∷ ms) h k e =
    let target = normalise_mount_target m.target in
    requested_loop-holds P t s
      (if is_empty target || is_empty m.source then out else insert target m.source out) ms
      (λ r f. elim (Bool-cases (is_empty target || is_empty m.source)) [
        | inl skipped ↦ h r (rw skipped at f)
        | inr noted ↦
            let found : (if text_eq target t then some m.source else lookup t out) ≡ some r =
              rw (noted, lookup-insert target t m.source out) at f in
            elim (Bool-cases (text_eq target t)) [
              | inl same ↦
                  let value : m.source ≡ r = ground (arith, found, same) in
                  rw (sym value)
                    (k m Among.first ((text_eq_iff target t).0 same) (ground (arith, noted)))
              | inr differs ↦ h r (rw differs at found)
            ]
      ])
      (λ q among. k q (Among.later m among)) e

requested_loop-stays_some :
    (t : Text) (out : Map Text) (ms : List Mount)
    → lookup t (requested_loop out ms) ≡ none
    → lookup t out ≡ none
unfolding requested_loop
requested_loop-stays_some t out [] e = e
requested_loop-stays_some t out (m ∷ ms) e =
    let target = normalise_mount_target m.target in
    let before =
      requested_loop-stays_some t
        (if is_empty target || is_empty m.source then out else insert target m.source out) ms e in
    ground (arith, before, lookup-insert target t m.source out)

requested_loop-none :
    (t : Text) (q : Mount) (ms : List Mount) (out : Map Text)
    → is_empty t ≡ false
    → lookup t (requested_loop out ms) ≡ none
    → Among q ms
    → normalise_mount_target q.target ≡ t
    → is_empty q.source ≡ true
unfolding requested_loop
requested_loop-none t q _ out given e (Among.first {xs = ms}) same =
    let before =
      requested_loop-stays_some t
        (if is_empty (normalise_mount_target q.target) || is_empty q.source
          then out
          else insert (normalise_mount_target q.target) q.source out)
        ms e in
    ground (
      arith,
      given,
      same,
      before,
      (text_eq_iff (normalise_mount_target q.target) t).1 same,
      lookup-insert (normalise_mount_target q.target) t q.source out,
    )
requested_loop-none t q _ out given e (Among.later {xs = ms} m among) same =
    requested_loop-none t q ms _ given e among same

-- The source that a point is kept with: the name of a volume; else what the container was created
-- with at the target, and where that is nothing the path that the daemon reports.
abbrev pub SourceOf : List Mount → Text → LivePoint → Text → Type 0
SourceOf asked target p source =
    (is_volume p.kind ≡ true) × (source ≡ p.name)
    ⊎ (is_volume p.kind ≡ false)
      × (IsAsked asked target source ⊎ NotAsked asked target × (source ≡ p.source))

-- What stands at the target is one of the mounts that the daemon lists.
abbrev pub StandsAt : Live → Text → LiveMount → Type 0
StandsAt live target l =
    (p : LivePoint) × Among p live.mounts
    × (normalise_mount_target p.destination ≡ target)
    × (l.kind ≡ p.kind)
    × (l.read_only ≡ not p.rw)
    × SourceOf (or_else live.host_config []) target p l.source

Asked : List Mount → Text → Text → Type 0
Asked asked t r = IsAsked asked t r × (is_empty r ≡ false)

requested-Asked :
    (asked : List Mount) (t r : Text)
    → lookup t (requested_loop [] asked) ≡ some r
    → Asked asked t r
unfolding lookup Asked
requested-Asked asked t r e =
    requested_loop-holds (Asked asked t) t r [] asked (λ s f. cc)
      (λ q among same given. ((q, among, same, refl), given)) e

requested_sources-loop :
    (host : Option (List Mount))
    → requested_sources_by_target host ≡ requested_loop [] (or_else host [])
unfolding requested_sources_by_target requested_loop
requested_sources-loop none = refl
requested_sources-loop (some ms) = refl

live_source-SourceOf :
    (host : Option (List Mount)) (p : LivePoint)
    → is_empty (normalise_mount_target p.destination) ≡ false
    → SourceOf
        (or_else host [])
        (normalise_mount_target p.destination)
        p
        (live_source (requested_sources_by_target host) p)
unfolding live_source Asked
live_source-SourceOf host p given =
    let target = normalise_mount_target p.destination in
    let asked = or_else host [] in
    rw (requested_sources-loop host) (elim (Bool-cases (is_volume p.kind)) [
      | inl v ↦ rw v (inl (refl, refl))
      | inr v ↦ rw v (
          inr (
            refl,
            elim (Option-cases (lookup target (requested_loop [] asked))) [
              | inl n ↦ rw n (
                  inr (
                    (λ q among same. requested_loop-none target q asked [] given n among same),
                    refl,
                  ))
              | inr (r, found) ↦
                  let (is_asked, nonempty) = requested-Asked asked target r found in
                  rw (found, nonempty) (inl is_asked)
            ],
          ))
    ])

live_loop-holds :
    (P : LiveMount → Type 0) (requested : Map Text) (t : Text) (out : Map LiveMount)
    (ps : List LivePoint) (l : LiveMount)
    → ((k : LiveMount) → lookup t out ≡ some k → P k)
    → ((p : LivePoint)
        → Among p ps
        → normalise_mount_target p.destination ≡ t
        → is_empty (normalise_mount_target p.destination) ≡ false
        → P (record { source = live_source requested p; kind = p.kind; read_only = not p.rw }))
    → lookup t (live_loop requested out ps) ≡ some l
    → P l
unfolding live_loop note_live
live_loop-holds P requested t out [] l h k e = h l e
live_loop-holds P requested t out (p ∷ ps) l h k e =
    let target = normalise_mount_target p.destination in
    let source = live_source requested p in
    let new : LiveMount = record { source = source; kind = p.kind; read_only = not p.rw } in
    live_loop-holds P requested t (note_live requested p out) ps l
      (λ r f. elim (Bool-cases (is_empty target || is_empty source)) [
        | inl skipped ↦ h r (rw skipped at f)
        | inr noted ↦
            let found : (if text_eq target t then some new else lookup t out) ≡ some r =
              rw (noted, lookup-insert target t new out) at f in
            elim (Bool-cases (text_eq target t)) [
              | inl same ↦
                  let value : new ≡ r = some_same new r (rw same at found) in
                  subst P value
                    (k p Among.first ((text_eq_iff target t).0 same) (ground (arith, noted)))
              | inr differs ↦ h r (rw differs at found)
            ]
      ])
      (λ q among. k q (Among.later p among)) e

-- Each mount of the live container that is found at a target stands there.
pub live_mounts-StandsAt :
    (live : Live) (t : Text) (l : LiveMount)
    → lookup t (live_mounts_by_target live) ≡ some l
    → StandsAt live t l
unfolding live_mounts_by_target lookup
live_mounts-StandsAt live t l e =
    live_loop-holds (StandsAt live t) (requested_sources_by_target live.host_config) t []
      live.mounts l (λ k f. cc)
      (λ p among same given. (
        p,
        among,
        same,
        refl,
        refl,
        subst
            (λ target.
              SourceOf (or_else live.host_config []) target p
                (live_source (requested_sources_by_target live.host_config) p))
            same (live_source-SourceOf live.host_config p given),
      ))
      e

-- A field of the form whose value in the live container is another than the submitted one.
abbrev pub Moved : Map Text → Map Text → List Text → Type 0
Moved deploy_env live_env keys =
    (key : Text) × (before : Text) × Among key keys
    × (lookup key live_env ≡ some before)
    × (text_eq before (or_else (lookup key deploy_env) []) ≡ false)

abbrev pub NotMoved : Map Text → Map Text → List Text → Type 0
NotMoved deploy_env live_env keys =
    (key before : Text)
    → Among key keys
    → lookup key live_env ≡ some before
    → before ≡ or_else (lookup key deploy_env) []

field_moved-differs :
    (deploy_env live_env : Map Text) (key : Text)
    → field_moved deploy_env live_env key ≡ true
    → (before : Text) × (lookup key live_env ≡ some before)
      × (text_eq before (or_else (lookup key deploy_env) []) ≡ false)
unfolding field_moved
field_moved-differs deploy_env live_env key h = elim (Option-cases (lookup key live_env)) [
  | inl n ↦ elim (true_not_false (sym (rw (n, field_moved) at h))) [ ]
  | inr (before, l) ↦ (before, l, ground (arith, rw (l, field_moved) at h))
]

pub any-Moved :
    (deploy_env live_env : Map Text) (keys : List Text)
    → any (field_moved deploy_env live_env) keys ≡ true
    → Moved deploy_env live_env keys
unfolding field_moved
any-Moved deploy_env live_env [] h = elim (true_not_false (sym h)) [ ]
any-Moved deploy_env live_env (key ∷ keys) h =
    elim (Bool-cases (field_moved deploy_env live_env key)) [
      | inl here ↦
          let (before, l, differs) = field_moved-differs deploy_env live_env key here in
          (key, before, Among.first, l, differs)
      | inr kept ↦
          let (k, before, among, l, differs) =
            any-Moved deploy_env live_env keys (sym (rw kept refl) ∙ h) in
          (k, before, Among.later key among, l, differs)
    ]

field_kept :
    (deploy_env live_env : Map Text) (key before : Text)
    → lookup key live_env ≡ some before
    → field_moved deploy_env live_env key ≡ false
    → before ≡ or_else (lookup key deploy_env) []
unfolding field_moved
field_kept deploy_env live_env key before l kept =
    (text_eq_iff before (or_else (lookup key deploy_env) [])).0
      (ground (arith, rw (l, field_moved) at kept))

pub any-NotMoved :
    (deploy_env live_env : Map Text) (key before : Text) (keys : List Text)
    → any (field_moved deploy_env live_env) keys ≡ false
    → Among key keys
    → lookup key live_env ≡ some before
    → before ≡ or_else (lookup key deploy_env) []
any-NotMoved deploy_env live_env key before _ h (Among.first {xs = keys}) l =
    field_kept deploy_env live_env key before l (ground (arith, h))
any-NotMoved deploy_env live_env key before _ h (Among.later {xs = keys} k among) l =
    any-NotMoved deploy_env live_env key before keys (ground (arith, h)) among l

live_loop-stays_some :
    (requested : Map Text) (t : Text) (out : Map LiveMount) (ps : List LivePoint)
    → lookup t (live_loop requested out ps) ≡ none
    → lookup t out ≡ none
unfolding live_loop note_live
live_loop-stays_some requested t out [] e = e
live_loop-stays_some requested t out (p ∷ ps) e =
    let target = normalise_mount_target p.destination in
    let new : LiveMount = record {
      source = live_source requested p;
      kind = p.kind;
      read_only = not p.rw;
    } in
    let before = live_loop-stays_some requested t (note_live requested p out) ps e in
    ground (arith, before, lookup-insert target t new out)

-- The point has no data to keep: no target, or no name of a volume, or no path.
abbrev pub NoData : LivePoint → Type 0
NoData p =
    (is_empty (normalise_mount_target p.destination) ≡ true)
    ⊎ (is_empty (if is_volume p.kind then p.name else p.source) ≡ true)

live_source-NoData :
    (requested : Map Text) (p : LivePoint)
    → (is_empty (normalise_mount_target p.destination) || is_empty (live_source requested p)) ≡ true
    → NoData p
unfolding live_source
live_source-NoData requested p h = ground (arith, h)

live_loop-none :
    (requested : Map Text) (t : Text) (p : LivePoint) (ps : List LivePoint) (out : Map LiveMount)
    → lookup t (live_loop requested out ps) ≡ none
    → Among p ps
    → normalise_mount_target p.destination ≡ t
    → NoData p
unfolding live_loop note_live
live_loop-none requested t p _ out e (Among.first {xs = ps}) same =
    let target = normalise_mount_target p.destination in
    let new : LiveMount = record {
      source = live_source requested p;
      kind = p.kind;
      read_only = not p.rw;
    } in
    let before = live_loop-stays_some requested t (note_live requested p out) ps e in
    live_source-NoData requested p
      (ground (arith, before, (text_eq_iff target t).1 same, lookup-insert target t new out))
live_loop-none requested t p _ out e (Among.later {xs = ps} q among) same =
    live_loop-none requested t p ps _ e among same

-- Where no mount is found at a target, no point that is listed there has data to keep.
pub live_mounts-NoData :
    (live : Live) (t : Text)
    → lookup t (live_mounts_by_target live) ≡ none
    → (p : LivePoint) → Among p live.mounts
    → normalise_mount_target p.destination ≡ t
    → NoData p
unfolding live_mounts_by_target
live_mounts-NoData live t e p among same =
    live_loop-none (requested_sources_by_target live.host_config) t p live.mounts [] e among same
