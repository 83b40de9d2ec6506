-- ===== src/Custom/Validate.antt =====
-- ValidateCustom of internal/services/custom.go. The pattern of an image reference, the printable
-- characters and the function Clean of the package `path` are parameters.
use cash_pilot_desktop.Base.{
  ℕ, pos, ℤ, leb_ℤ, atoi, Bool, false, ◌&&◌, ◌||◌, not, Option, none, some, List, [], ◌∷◌, ◌++◌,
  ◌+◌, ◌*◌, reverse, Text, codes, text_eq, is_empty, contains, has_prefix, trim_space, to_lower,
  Map, lookup, insert, if◌then◌else◌, ltb, leb, ◌==◌, length, any, Outcome, done, refused, and_then,
  unless,
}
use cash_pilot_desktop.Custom.{
  CustomEnv, CustomDefinition, CustomError, bad_name, bad_image, bad_command, bad_data_path,
  too_many_variables, bad_variable_name, set_twice, value_too_long, bad_mem_limit, mem_out_of_range,
  max_name, max_env, max_env_value, max_command, default_mem_limit, mem_min_mb, mem_max_mb,
}
use cash_pilot_desktop.Custom.Shown.{has_char}

pub record Rules : Type 0 where
  -- `imageRef.MatchString`, `unicode.IsPrint` and `path.Clean`.
  pub image_ref : Text → Bool
  pub is_print : ℕ → Bool
  pub clean_path : Text → Text

-- The bytes of a code point in UTF-8, and of a text.
abbrev bytes_of : ℕ → ℕ
bytes_of c = if ltb c 0x80 then 1 else if ltb c 0x800 then 2 else if ltb c 0x10000 then 3 else 4

unfoldable pub byte_length : Text → ℕ
byte_length [] = 0
byte_length (c ∷ s) = bytes_of c + byte_length s

abbrev every : (ℕ → Bool) → Text → Bool
every test s = not (any (λ c. not (test c)) s)

abbrev is_digit : ℕ → Bool
is_digit c = leb b'0' c && leb c b'9'

abbrev is_letter : ℕ → Bool
is_letter c = (leb b'A' c && leb c b'Z') || (leb b'a' c && leb c b'z')

-- `customEnvKey`
unfoldable pub is_env_key : Text → Bool
is_env_key [] = false
is_env_key (c ∷ s) =
    (is_letter c || c == b'_')
    && (every (λ d. is_letter d || (is_digit d || d == b'_')) s && leb (length s) 127)

-- `customDataPath`
unfoldable pub is_data_path : Text → Bool
is_data_path [] = false
is_data_path (c ∷ s) =
    c == b'/'
    && (every
          (λ d.
            is_letter d || (is_digit d || (d == b'.' || (d == b'_' || (d == b'/' || d == b'-')))))
          s
        && (leb 1 (length s) && leb (length s) 200))

-- `strings.Contains(s, part)`
unfoldable pub has_part : Text → Text → Bool
has_part [] part = has_prefix [] part
has_part (c ∷ s) part = has_prefix (c ∷ s) part || has_part s part

-- The number and the unit of `customMemLimit`, from the end of the text.
unfoldable pub mem_parts : Text → Option (Text × ℕ)
mem_parts [] = none
mem_parts (c ∷ reversed) =
    if (c == b'm' || c == b'g') && (every is_digit reversed && not (is_empty reversed))
    then some (reverse reversed, c)
    else none

unfoldable pub mem_in_range : Text → ℤ → Outcome CustomError Text
mem_in_range value mb =
    unless (not (leb_ℤ (pos mem_min_mb) mb && leb_ℤ mb (pos mem_max_mb))) mem_out_of_range
      (done value)

-- A number of gigabytes is bounded before it is multiplied.
unfoldable pub mem_of_unit : Text → ℕ → ℤ → Outcome CustomError Text
mem_of_unit value unit (pos mb) =
    if unit == b'g'
    then unless (ltb 16 mb) mem_out_of_range (mem_in_range value (pos (mb * 1024)))
    else mem_in_range value (pos mb)
mem_of_unit value unit mb = mem_in_range value mb

unfoldable pub validate_custom_mem : Text → Outcome CustomError Text
validate_custom_mem raw =
    let typed = to_lower (trim_space raw) in
    let value = if is_empty typed then default_mem_limit else typed in
    elim (mem_parts (reverse value)) [
      | none ↦ refused bad_mem_limit
      | some parts ↦ elim (atoi parts.0) [
        | none ↦ refused mem_out_of_range
        | some mb ↦ mem_of_unit value parts.1 mb
      ]
    ]

-- The values of the secrets that are stored, by key.
unfoldable pub stored_secrets : Map Text → List CustomEnv → Map Text
stored_secrets stored [] = stored
stored_secrets stored (e ∷ env) =
    stored_secrets (if e.secret then insert e.key e.value stored else stored) env

unfoldable pub kept_value : Map Text → Text → Text → Text
kept_value stored key value = elim (lookup key stored) [
  | none ↦ value
  | some old ↦ if is_empty value then old else value
]

unfoldable pub validate_env_loop :
    Map Text → List Text → List CustomEnv → List CustomEnv → Outcome CustomError (List CustomEnv)
validate_env_loop stored seen out [] = done out
validate_env_loop stored seen out (item ∷ items) =
    let key = trim_space item.key in
    let value = kept_value stored key item.value in
    let rest =
      validate_env_loop stored (key ∷ seen)
        (out ++ record { key = key; value = value; secret = item.secret } ∷ []) items in
    unless (not (is_env_key key)) bad_variable_name (
      unless (contains seen key) (set_twice key) (
        unless (ltb max_env_value (byte_length value) || has_char 0 value) (value_too_long key)
          rest))

abbrev pub env_of : Option CustomDefinition → List CustomEnv
env_of none = []
env_of (some previous) = previous.env

unfoldable pub validate_custom_env :
    List CustomEnv → Option CustomDefinition → Outcome CustomError (List CustomEnv)
validate_custom_env items previous =
    unless (ltb max_env (length items)) too_many_variables
      (validate_env_loop (stored_secrets [] (env_of previous)) [] [] items)

module _ (rules : Rules) where
  unfoldable pub is_name : Text → Bool
  is_name name = (leb 1 (length name) && leb (length name) max_name) && every rules.is_print name

  -- `image != "" && ValidateImage(image) == nil`
  unfoldable pub is_image : Text → Bool
  is_image image =
      let trimmed = trim_space image in
      not (is_empty image)
      && (is_empty trimmed || (leb (byte_length trimmed) 255 && rules.image_ref trimmed))

  unfoldable pub is_command : Text → Bool
  is_command command =
      leb (byte_length command) max_command
      && not (has_char 0 command || (has_char 10 command || has_char 13 command))

  unfoldable pub is_mount : Text → Bool
  is_mount data_path =
      is_empty data_path
      || (is_data_path data_path
          && (text_eq (rules.clean_path data_path) data_path
              && (not (text_eq data_path (codes "/"))
                  && not (has_part (b'/' ∷ data_path ++ b'/' ∷ []) (codes "/../")))))

  unfoldable pub validate_custom :
      CustomDefinition → Option CustomDefinition → Outcome CustomError CustomDefinition
  validate_custom typed previous =
      let name = trim_space typed.name in
      let image = trim_space typed.image in
      let command = trim_space typed.command in
      let data_path = trim_space typed.data_path in
      unless (not (is_name name)) bad_name (
        unless (not (is_image image)) bad_image (
          and_then (validate_custom_env typed.env previous) (λ env.
            unless (not (is_command command)) bad_command (
              unless (not (is_mount data_path)) bad_data_path (
                and_then (validate_custom_mem typed.mem_limit) (λ mem. done (record {
                  name = name;
                  image = image;
                  env = env;
                  command = command;
                  data_path = data_path;
                  mem_limit = mem;
                })))))))

-- Opens the definitions of this module.
unfoldable pub validate_defs : Unit {0}
unfolding byte_length is_env_key is_data_path has_part mem_parts mem_in_range mem_of_unit
    validate_custom_mem stored_secrets kept_value validate_env_loop validate_custom_env is_name
    is_image is_command is_mount validate_custom
validate_defs = tt
