-- ===== src/Mounts.antt =====
-- internal/runtime/mounts.go: where a replaced container's data lives. The fields of the form that a
-- volume's host side names are found by `${NAME}`, a letter or `_` and then letters, digits or `_`.
pub mod Stands
pub mod Kept
mod Tests
use cash_pilot_desktop.Base.{
  ℕ, ◌+◌, Bool, true, false, ◌&&◌, ◌||◌, not, Option, none, some, List, [], ◌∷◌, ◌++◌, Text, codes,
  text_eq, is_empty, split, Map, lookup, insert, if◌then◌else◌, or_else, any, leb, ◌==◌, texts,
}
use cash_pilot_desktop.Removal.{
  MountType, volume, bind, other, normalise_mount_target, removal_defs,
}

-- `mount.Mount` of the Docker API.
pub record Mount : Type 0 where
  pub kind : MountType
  pub source : Text
  pub target : Text
  pub read_only : Bool

pub record KeptMount : Type 0 where
  pub target : Text
  pub kept : Text
  pub requested : Text

-- `container.MountPoint` of an inspection.
pub record LivePoint : Type 0 where
  pub kind : MountType
  pub name : Text
  pub source : Text
  pub destination : Text
  pub rw : Bool

-- The parts of an inspection that are read; `none` for a block that is missing.
pub record Live : Type 0 where
  pub mounts : List LivePoint
  pub host_config : Option (List Mount)
  pub env : Option (List Text)

pub record LiveMount : Type 0 where
  pub source : Text
  pub kind : MountType
  pub read_only : Bool

abbrev pub is_volume : MountType → Bool
is_volume volume = true
is_volume _ = false

unfoldable pub requested_loop : Map Text → List Mount → Map Text
requested_loop out [] = out
requested_loop out (m ∷ ms) =
    let target = normalise_mount_target m.target in
    requested_loop
      (if is_empty target || is_empty m.source then out else insert target m.source out) ms

unfoldable pub requested_sources_by_target : Option (List Mount) → Map Text
requested_sources_by_target none = []
requested_sources_by_target (some ms) = requested_loop [] ms

-- The source that a live mount is recreated with.
unfoldable pub live_source : Map Text → LivePoint → Text
live_source requested m =
    let asked = or_else (lookup (normalise_mount_target m.destination) requested) [] in
    if is_volume m.kind then m.name else if not (is_empty asked) then asked else m.source

-- A mount with no target or no source is passed over.
unfoldable pub note_live : Map Text → LivePoint → Map LiveMount → Map LiveMount
note_live requested m out =
    let target = normalise_mount_target m.destination in
    let source = live_source requested m in
    if is_empty target || is_empty source
    then out
    else insert target (record { source = source; kind = m.kind; read_only = not m.rw }) out

unfoldable pub live_loop : Map Text → Map LiveMount → List LivePoint → Map LiveMount
live_loop requested out [] = out
live_loop requested out (m ∷ ms) = live_loop requested (note_live requested m out) ms

unfoldable pub live_mounts_by_target : Live → Map LiveMount
live_mounts_by_target live = live_loop (requested_sources_by_target live.host_config) [] live.mounts

unfoldable pub declared_entry : List Text → Map Text → Map Text
declared_entry (host ∷ target ∷ _) out = insert (normalise_mount_target target) host out
declared_entry _ out = out

unfoldable pub declared_loop : Map Text → List Text → Map Text
declared_loop out [] = out
declared_loop out (raw ∷ raws) = declared_loop (declared_entry (split b':' raw) out) raws

unfoldable pub declared_host_by_target : List Text → Map Text
declared_host_by_target declared = declared_loop [] declared

abbrev is_letter : ℕ → Bool
is_letter c = (leb b'A' c && leb c b'Z') || (leb b'a' c && leb c b'z') || c == b'_'

abbrev is_word : ℕ → Bool
is_word c = is_letter c || (leb b'0' c && leb c b'9')

-- The name up to `}`; `acc` is what was read of it.
unfoldable pub read_name : Text → Text → Option Text
read_name acc [] = none
read_name acc (c ∷ s) =
    let rest = read_name (acc ++ c ∷ []) s in
    if c == b'}' && not (is_empty acc)
    then some acc
    else if is_letter c || (is_word c && not (is_empty acc))
    then rest
    else none

unfoldable pub name_at : Text → Option Text
name_at (c ∷ d ∷ s) = if c == b'$' && d == b'{' then read_name [] s else none
name_at _ = none

-- The names of the placeholders, in order. No match overlaps another: a name holds no `$`.
unfoldable pub placeholders : Text → List Text
placeholders [] = []
placeholders (c ∷ s) =
    let rest = placeholders s in elim (name_at (c ∷ s)) [ some name ↦ name ∷ rest | none ↦ rest ]

-- The key and the value of "KEY=value", `none` with no "=".
unfoldable pub cut : Text → Option (Text × Text)
cut [] = none
cut (c ∷ s) =
    let rest = cut s in
    if c == b'='
    then some ([], s)
    else elim rest [ some (key, value) ↦ some (c ∷ key, value) | none ↦ none ]

unfoldable pub env_loop : Map Text → List Text → Map Text
env_loop out [] = out
env_loop out (entry ∷ entries) =
    env_loop (elim (cut entry) [ some (key, value) ↦ insert key value out | none ↦ out ]) entries

unfoldable pub env_map : List Text → Map Text
env_map entries = env_loop [] entries

-- A form field whose submitted value differs from the one the live container carries.
unfoldable pub field_moved : Map Text → Map Text → Text → Bool
field_moved deploy_env live_env key = elim (lookup key live_env) [
  | none ↦ false
  | some before ↦ not (text_eq before (or_else (lookup key deploy_env) []))
]

unfoldable pub moved_on_purpose : Text → Map Text → Map Text → Bool
moved_on_purpose declared_host deploy_env live_env =
    any (field_moved deploy_env live_env) (placeholders declared_host)

-- The body of the loop for a mount that has a live one at its target.
unfoldable pub keep_existing : Mount → LiveMount → Mount × Option KeptMount
keep_existing m existing =
    let same_source = text_eq existing.source m.source in
    let protected = existing.read_only && not m.read_only in
    let what = if same_source then existing.source ++ codes " (read-only)" else existing.source in
    if same_source && not protected then (m, none) else (
      record {
        kind = existing.kind;
        source = existing.source;
        target = m.target;
        read_only = m.read_only || existing.read_only;
      },
      some (record { target = normalise_mount_target m.target; kept = what; requested = m.source }),
    )

unfoldable pub keep_mount :
    Map LiveMount → Map Text → Map Text → Map Text → Mount → Mount × Option KeptMount
keep_mount live_mounts host_side deploy_env live_env m =
    let target = normalise_mount_target m.target in
    elim (lookup target live_mounts) [
      | none ↦ (m, none)
      | some existing ↦
          if is_empty existing.source
          then (m, none)
          else if moved_on_purpose (or_else (lookup target host_side) []) deploy_env live_env
          then (m, none)
          else keep_existing m existing
    ]

unfoldable pub keep_loop :
    Map LiveMount → Map Text → Map Text → Map Text → List Mount → List Mount × List KeptMount
keep_loop live_mounts host_side deploy_env live_env [] = ([], [])
keep_loop live_mounts host_side deploy_env live_env (m ∷ ms) =
    let (out, kept) = keep_loop live_mounts host_side deploy_env live_env ms in
    let (m', k) = keep_mount live_mounts host_side deploy_env live_env m in
    (m' ∷ out, elim k [ some entry ↦ entry ∷ kept | none ↦ kept ])

abbrev pub is_nil {ℓ} : {A : Type ℓ} → List A → Bool
is_nil [] = true
is_nil (_ ∷ _) = false

-- The live container's environment as a map.
abbrev pub live_env_of : Live → Map Text
live_env_of live = env_map (or_else live.env [])

unfoldable pub keep_live_mounts :
    List Mount → List Text → Map Text → Live → List Mount × List KeptMount
keep_live_mounts spec declared deploy_env live =
    let live_mounts = live_mounts_by_target live in
    if is_nil live_mounts || is_nil spec
    then (spec, [])
    else keep_loop live_mounts (declared_host_by_target declared) deploy_env (live_env_of live) spec

-- Opens the file and what it uses, for tests.
unfoldable pub mounts_defs : Unit {0}
unfolding removal_defs requested_loop requested_sources_by_target live_source note_live live_loop
    live_mounts_by_target declared_entry declared_loop declared_host_by_target read_name name_at
    placeholders cut env_loop env_map field_moved moved_on_purpose keep_existing keep_mount
    keep_loop keep_live_mounts
mounts_defs = tt
