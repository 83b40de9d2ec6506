-- ===== src/StateBackup/Tests.antt =====
-- A payload of one archive, read by a reader that knows its members.
use cash_pilot_desktop.Base.{
  ◌++◌, ℕ, zero, suc, false, none, some, List, [], ◌∷◌, ◌≡◌, ◌≢◌, refl, codes, All, arith,
}
use cash_pilot_desktop.StateBackup.{
  Bytes, Member, Entry, failed, State, Archive, reg, dir, link, symlink, through_link,
  links_outside, out_of_fuel, accept_all, split_archives, empty_state, split_defs, unsafe_member,
}
use cash_pilot_desktop.StateBackup.Safe.{grouped-stays_in, Group}
use cash_pilot_desktop.StateBackup.Groups.{accept_all-entries_under, group_of, entries_under}
use cash_pilot_desktop.StateBackup.Ends.{split_archives-ends, Takes}

abbrev file : Member
file = record {
  header = record { name = codes "./node//key"; linkname = []; flag = reg; mode = 2541; size = 3 };
  body = some (1 ∷ 2 ∷ 3 ∷ []);
}

abbrev folder : Member
folder = record {
  header = record { name = codes "node/"; linkname = []; flag = dir; mode = 493; size = 0 };
  body = none;
}

abbrev jump : Member
jump = record {
  header = record {
    name = codes "node/jump";
    linkname = codes "store";
    flag = symlink;
    mode = 511;
    size = 0;
  };
  body = none;
}

-- The whole payload is one archive.
abbrev read_all : List Member → Bytes → Archive
read_all ms [] = record { members = []; is_damaged = false; rest = [] }
read_all ms (_ ∷ _) = record { members = ms; is_damaged = false; rest = [] }

read_all-Takes : (ms : List Member) → Takes (read_all ms)
read_all-Takes ms [] h = absurd (cc)
read_all-Takes ms (b ∷ r) h = omega arith

abbrev some_block : ℕ → Bytes → Bytes
some_block zero r = r
some_block (suc n) r = 7 ∷ some_block n r

abbrev two_entries : List Entry
two_entries =
    record {
      header = record { name = codes "node/"; linkname = []; flag = dir; mode = 493; size = 0 };
      data_of = none;
    }
    ∷ record {
      header = record { name = codes "node/key"; linkname = []; flag = reg; mode = 493; size = 3 };
      data_of = some (1 ∷ 2 ∷ 3 ∷ []);
    }
    ∷ []

abbrev two_state : State
two_state = record {
  groups = (codes "node", two_entries) ∷ [];
  order = codes "node" ∷ [];
  links = [];
}

grouped-stays_in_example : All Group two_state.groups
unfolding split_defs
grouped-stays_in_example =
    grouped-stays_in (read_all (folder ∷ file ∷ [])) (some_block 512 []) two_state refl

-- A backslash that stands behind two "./" is not seen as an absolute name.
accepts_backslash :
    unsafe_member (record file.header { name = codes "./\\key" }) (codes "./\\key") [] ≡ none
unfolding split_defs
accepts_backslash = refl

-- A hard link through a link is refused, but not when its target has a "." in it.
refuses_link :
    unsafe_member
      (record jump.header { flag = link; name = codes "node/b"; linkname = codes "node/jump/x" })
      (codes "node/b")
      (codes "node/jump" ∷ [])
    ≡ some (links_outside (codes "node/b") (codes "node/jump/x"))
unfolding split_defs
refuses_link = refl

accepts_dotted_link :
    unsafe_member
      (record jump.header { flag = link; name = codes "node/b"; linkname = codes "node/./jump/x" })
      (codes "node/b")
      (codes "node/jump" ∷ [])
    ≡ none
unfolding split_defs
accepts_dotted_link = refl

refuses_path_through :
    accept_all
      (jump ∷ record file { header = record file.header { name = codes "node/jump/k" } } ∷ [])
      empty_state
    ≡ failed (through_link (codes "node/jump/k"))
unfolding split_defs
refuses_path_through = refl

split_archives-ends_example :
    split_archives (read_all (file ∷ [])) (λ es. none) (some_block 600 []) ≢ failed out_of_fuel
split_archives-ends_example =
    split_archives-ends (read_all (file ∷ [])) (λ es. none) (some_block 600 [])
      (read_all-Takes (file ∷ []))

accept_all-entries_under_example :
    group_of (codes "node") two_state
    ≡ group_of (codes "node") empty_state ++ entries_under (codes "node") (folder ∷ file ∷ [])
unfolding split_defs
accept_all-entries_under_example =
    accept_all-entries_under (codes "node") (folder ∷ file ∷ []) empty_state two_state refl
