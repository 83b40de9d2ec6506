-- ===== src/StateBackup/Links.antt =====
-- About unsafeMember of internal/statebackup/split.go: links that the backup itself brings.
use cash_pilot_desktop.Base.{
  Bool, split, ◌&&◌, false, ◌||◌, List, [], ◌∷◌, ◌≡◌, Text, codes, join, trim_prefix, if◌then◌else◌,
}
use cash_pilot_desktop.StateBackup.Safe.{is_hard}
use cash_pilot_desktop.StateBackup.{Member, State, clean_parts, is_link, is_through}

abbrev pub path_of : Member → List Text
path_of m = clean_parts (trim_prefix m.header.name (codes "./"))

-- The links after a member.
abbrev pub links_after : Member → List Text → List Text
links_after m links = if is_link m.header.flag then join b'/' (path_of m) ∷ links else links

-- The member's path leads through one of the links, or the target of a hard link does.
abbrev pub leads_through : List Text → Member → Bool
leads_through links m =
    is_through links (path_of m)
    || (is_hard m.header.flag && is_through links (split b'/' m.header.linkname))

-- So does one of the members, through the links or one that a member before it made.
abbrev pub passes_link : List Text → List Member → Bool
passes_link links [] = false
passes_link links (m ∷ ms) = leads_through links m || passes_link (links_after m links) ms

abbrev Accepted : Member → State → State → Type 0
Accepted m s s' = (leads_through s.links m ≡ false) × (s'.links ≡ links_after m s.links)
