-- ===== src/Custom/Slug.antt =====
-- MakeCustomSlug and CustomVolumeName of internal/services/custom.go.
use cash_pilot_desktop.Base.{
  ℕ, zero, suc, pos, Bool, true, false, ◌&&◌, ◌||◌, not, Option, none, some, List, [], ◌∷◌, ◌++◌,
  reverse, Text, codes, is_empty, contains, to_lower, drop_while, trim_right, itoa, length, take,
  if◌then◌else◌, leb, ltb, ◌==◌,
}
use cash_pilot_desktop.Custom.{custom_prefix}

abbrev is_digit : ℕ → Bool
is_digit c = leb b'0' c && leb c b'9'

-- `[a-z0-9]`
abbrev pub is_safe : ℕ → Bool
is_safe c = (leb b'a' c && leb c b'z') || is_digit c

-- `slugUnsafe.ReplaceAllString(s, "-")`: one dash for each run of other characters.
unfoldable pub dashes_from : Bool → Text → Text
dashes_from in_run [] = []
dashes_from in_run (c ∷ s) =
    let kept = dashes_from false s in
    let skipped = dashes_from true s in
    if is_safe c then c ∷ kept else if in_run then skipped else b'-' ∷ skipped

-- `strings.Trim(s, "-")`
unfoldable pub trim_dashes : Text → Text
trim_dashes s = trim_right b'-' (drop_while (λ c. c == b'-') s)

-- The text without the dash before digits that end it. `reversed` is read from the end of the text,
-- and `digits` are those already passed.
unfoldable pub drop_copy_dash : (digits reversed : Text) → Text
drop_copy_dash digits [] = digits
drop_copy_dash digits (c ∷ reversed) =
    let more = drop_copy_dash (c ∷ digits) reversed in
    if is_digit c
    then more
    else if c == b'-' && not (is_empty digits)
    then reverse reversed ++ digits
    else reverse reversed ++ c ∷ digits

-- `slugCopySuffix.ReplaceAllString(base, "$1")`
unfoldable pub join_copy_suffix : Text → Text
join_copy_suffix base = drop_copy_dash [] (reverse base)

unfoldable pub slug_base : Text → Text
slug_base name =
    let base = trim_dashes (dashes_from false (to_lower name)) in
    let short = if ltb 40 (length base) then trim_dashes (take 40 base) else base in
    join_copy_suffix (if is_empty short then codes "service" else short)

-- The slug of the first turn of the loop, and of the turn in which `n` is `k + 1`.
unfoldable pub candidate : Text → ℕ → Text
candidate base zero = custom_prefix ++ base
candidate base (suc k) = custom_prefix ++ (base ++ (codes "-v" ++ itoa (pos (suc (suc k)))))

-- The loop, on fuel.
unfoldable pub free_slug : ℕ → Text → ℕ → List Text → Option Text
free_slug zero base k taken = none
free_slug (suc fuel) base k taken =
    let later = free_slug fuel base (suc k) taken in
    if contains taken (candidate base k) then later else some (candidate base k)

-- One turn more than there are slugs taken.
unfoldable pub make_custom_slug : Text → List Text → Option Text
make_custom_slug name taken = free_slug (suc (length taken)) (slug_base name) zero taken

unfoldable pub custom_volume_name : Text → Text
custom_volume_name slug = codes "cashpilot-" ++ (slug ++ codes "-data")

-- Opens the definitions of this module.
unfoldable pub slug_defs : Unit {0}
unfolding dashes_from trim_dashes drop_copy_dash join_copy_suffix slug_base candidate free_slug
    make_custom_slug custom_volume_name
slug_defs = tt
