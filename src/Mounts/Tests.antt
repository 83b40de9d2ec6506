-- ===== src/Mounts/Tests.antt =====
-- A redeploy of a service whose data folder is taken from a form field.
use cash_pilot_desktop.Base.{true, false, none, some, List, [], ◌∷◌, ◌≡◌, refl, Text, codes, Map}
use cash_pilot_desktop.Removal.{bind}
use cash_pilot_desktop.Mounts.{Mount, Live, keep_live_mounts, mounts_defs}
use cash_pilot_desktop.Mounts.Kept.{AllCreatedAs, keep_live_mounts-CreatedAs}

abbrev new_mount : Mount
new_mount = record { kind = bind; source = codes "/new"; target = codes "/data"; read_only = false }

abbrev declared : List Text
declared = codes "${FOLDER}:/data" ∷ []

abbrev live : Live
live = record {
  mounts =
      record {
        kind = bind;
        name = [];
        source = codes "/old";
        destination = codes "/data";
        rw = true;
      }
      ∷ [];
  host_config = none;
  env = some (codes "FOLDER=/old" ∷ []);
}

abbrev unchanged : Map Text
unchanged = (codes "FOLDER", codes "/old") ∷ []

-- A field of the same value keeps the data where it is, one with a new value moves it.
keeps_source :
    (keep_live_mounts (new_mount ∷ []) declared unchanged live).0
    ≡ record new_mount { source = codes "/old" } ∷ []
unfolding mounts_defs
keeps_source = refl

moves_source :
    (keep_live_mounts (new_mount ∷ []) declared ((codes "FOLDER", codes "/new") ∷ []) live).0
    ≡ new_mount ∷ []
unfolding mounts_defs
moves_source = refl

keep_live_mounts-CreatedAs_example :
    AllCreatedAs declared unchanged live
      (new_mount ∷ [])
      (keep_live_mounts (new_mount ∷ []) declared unchanged live).0
keep_live_mounts-CreatedAs_example =
    keep_live_mounts-CreatedAs declared unchanged live (new_mount ∷ [])
