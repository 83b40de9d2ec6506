-- ===== src/Custom/Shown.antt =====
-- What internal/services/custom.go makes of a definition: CustomImageWarnings, CustomAsService and
-- customView.
use cash_pilot_desktop.Base.{
  ℕ, Bool, true, false, ◌&&◌, ◌||◌, not, Option, none, some, List, [], ◌∷◌, ◌++◌, map, Text, codes,
  text_eq, is_empty, if◌then◌else◌, ◌==◌, any,
}
use cash_pilot_desktop.Catalog.{Service, DockerConfig, EnvVar, no_service, no_docker}
use cash_pilot_desktop.Custom.{
  CustomEnv, CustomDefinition, CustomEnvView, CustomServiceView, Warning, unpinned,
  default_mem_limit,
}
use cash_pilot_desktop.Custom.Slug.{custom_volume_name}

-- The text before the first `c` and, where there is one, what follows it.
unfoldable pub cut_at : ℕ → Text → Text × Option Text
cut_at c [] = ([], none)
cut_at c (x ∷ s) = let rest = cut_at c s in if x == c then ([], some s) else (x ∷ rest.0, rest.1)

abbrev pub has_char : ℕ → Text → Bool
has_char c s = any (λ x. x == c) s

-- The repository and the tag: the last ':' that no '/' follows parts them.
unfoldable pub split_tag : Text → Text × Text
split_tag [] = ([], [])
split_tag (x ∷ s) =
    let rest = split_tag s in
    if x == b':' && not (has_char b':' s || has_char b'/' s) then ([], s) else (x ∷ rest.0, rest.1)

pub record ImageRef : Type 0 where
  pub repo : Text
  pub tag : Text
  pub digest : Text

abbrev digest_of : Option Text → Text
digest_of none = []
digest_of (some digest) = digest

unfoldable pub split_image_ref : Text → ImageRef
split_image_ref ref =
    let parts = cut_at b'@' ref in
    let tagged = split_tag parts.0 in
    record { repo = tagged.0; tag = tagged.1; digest = digest_of parts.1 }

unfoldable pub custom_image_warnings : Text → List Warning
custom_image_warnings image =
    let ref = split_image_ref image in
    if is_empty ref.digest && (is_empty ref.tag || text_eq ref.tag (codes "latest"))
    then unpinned ∷ []
    else []

abbrev no_var : EnvVar
no_var = record {
  key = [];
  label = [];
  required = false;
  secret = false;
  default = [];
  pattern = [];
  port_range = false;
}

unfoldable pub revealed_env : CustomEnv → EnvVar
revealed_env e = record no_var { key = e.key; label = e.key; default = e.value; secret = e.secret }

unfoldable pub custom_docker : Text → CustomDefinition → Bool → DockerConfig
custom_docker slug def reveal = record no_docker {
  image = def.image;
  command = if reveal then def.command else [];
  resources = record no_docker.resources {
    mem_limit = if is_empty def.mem_limit then default_mem_limit else def.mem_limit;
  };
  volumes =
      if is_empty def.data_path then [] else (custom_volume_name slug ++ b':' ∷ def.data_path) ∷ [];
  env = if reveal then map revealed_env def.env else [];
}

unfoldable pub custom_as_service : Text → CustomDefinition → Bool → Service
custom_as_service slug def reveal = record no_service {
  name = def.name;
  slug = slug;
  category = codes "custom";
  status = codes "custom";
  description =
      codes "Added by you from " ++ (def.image ++ codes ". CashPilot has not reviewed this image.");
  docker = custom_docker slug def reveal;
  custom = true;
}

unfoldable pub env_view : CustomEnv → CustomEnvView
env_view e = record {
  key = e.key;
  value = if e.secret then [] else e.value;
  secret = e.secret;
  is_set = not (is_empty e.value);
}

unfoldable pub custom_view : Text → CustomDefinition → CustomServiceView
custom_view slug def = record {
  slug = slug;
  name = def.name;
  image = def.image;
  env = map env_view def.env;
  command = def.command;
  data_path = def.data_path;
  mem_limit = def.mem_limit;
  volume = if is_empty def.data_path then [] else custom_volume_name slug;
  warnings = custom_image_warnings def.image;
}
