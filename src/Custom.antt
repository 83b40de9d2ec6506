-- ===== src/Custom.antt =====
-- internal/services/custom.go: the services that the user adds from an image, and the table
-- internal/store/custom_services.go that holds them. A definition is stored as it is: its JSON and
-- its encryption are left out.
mod Slug
pub mod Shown
mod Validate
pub mod Manage
pub mod Effects
pub mod Held
pub mod Deploys
mod Tests
pub mod Variables
pub mod Masked
pub mod Fresh
use cash_pilot_desktop.Base.{ℕ, Bool, List, Text, codes}

abbrev pub max_name : ℕ
max_name = 60

abbrev pub max_env : ℕ
max_env = 50

abbrev pub max_env_value : ℕ
max_env_value = 4096

abbrev pub max_command : ℕ
max_command = 1024

abbrev pub default_mem_limit : Text
default_mem_limit = codes "512m"

abbrev pub mem_min_mb : ℕ
mem_min_mb = 32

abbrev pub mem_max_mb : ℕ
mem_max_mb = 16384

-- `catalog.CustomPrefix`
abbrev pub custom_prefix : Text
custom_prefix = codes "custom-"

pub record CustomEnv : Type 0 where
  pub key : Text
  pub value : Text
  pub secret : Bool

pub record CustomDefinition : Type 0 where
  pub name : Text
  pub image : Text
  pub env : List CustomEnv
  pub command : Text
  pub data_path : Text
  pub mem_limit : Text

pub record CustomEnvView : Type 0 where
  pub key : Text
  pub value : Text
  pub secret : Bool
  pub is_set : Bool

pub data Warning : Type 0 where
  unpinned : Warning

pub record CustomServiceView : Type 0 where
  pub slug : Text
  pub name : Text
  pub image : Text
  pub env : List CustomEnvView
  pub command : Text
  pub data_path : Text
  pub mem_limit : Text
  pub volume : Text
  pub warnings : List Warning

-- The messages of the errors.
pub data CustomError : Type 0 where
  bad_name bad_image bad_command bad_data_path : CustomError
  too_many_variables bad_variable_name : CustomError
  set_twice value_too_long : (key : Text) → CustomError
  bad_mem_limit mem_out_of_range : CustomError
  not_custom unknown_custom : (slug : Text) → CustomError
  being_deployed still_deployed still_runs cannot_tell : CustomError
  slug_was_used not_found out_of_fuel : CustomError
