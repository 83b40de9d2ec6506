-- ===== src/StateBackup.antt =====
-- internal/statebackup/split.go: how a decrypted backup is cut into one archive per mount. The
-- reader of one tar archive and the writer are parameters. A header has the fields the code tests
-- and those it sets, but not the format and the PAX records, which it clears for the writer; the
-- others are copied as they are.
mod Paths
mod Results
pub mod Safe
pub mod Links
pub mod Groups
pub mod Ends
mod Tests
use cash_pilot_desktop.Base.{
  ℕ, suc, zero, ◌-◌, ◌%◌, Bool, true, false, ◌&&◌, ◌||◌, not, Option, none, some, List, [], ◌∷◌,
  ◌++◌, map, Text, codes, text_eq, text_lt, is_empty, has_prefix, trim_prefix, split, join,
  contains, Map, lookup, insert, sort, if◌then◌else◌, or_else, ltb, ◌==◌, length, take, drop, keep,
  any, is_some, texts,
}

abbrev pub Bytes : Type 0
Bytes = List ℕ

-- The type flags of `archive/tar` that the code names; any other is `special`.
pub data TypeFlag : Type 0 where
  reg cont gnu_sparse dir symlink link special : TypeFlag

pub record Header : Type 0 where
  pub name : Text
  pub linkname : Text
  pub flag : TypeFlag
  -- The 64 bits of the mode.
  pub mode : ℕ
  pub size : ℕ

-- A header of the archive, and its content: `none` where reading it fails.
pub record Member : Type 0 where
  pub header : Header
  pub body : Option Bytes

pub record Entry : Type 0 where
  pub header : Header
  -- `none` is the nil slice.
  pub data_of : Option Bytes

pub data Error : Type 0 where
  absolute leaves_folder through_link device : Text → Error
  links_outside : Text → Text → Error
  unreadable damaged damaged_header unwritable out_of_fuel : Error

pub data Result {ℓ} (A : Type ℓ) : Type ℓ where
  ok : A → Result A
  failed : Error → Result A

-- `if err != nil { return err }`
abbrev pub bind {ℓ κ} : {A : Type ℓ} {B : Type κ} → Result A → (A → Result B) → Result B
bind (ok a) f = f a
bind (failed why) f = failed why

unfoldable pub clean_parts : Text → List Text
clean_parts name = keep (λ p. not (is_empty p || text_eq p (codes "."))) (split b'/' name)

-- `parts[:depth]` for every depth from 1 below the length.
unfoldable pub proper_prefixes : List Text → List (List Text)
proper_prefixes [] = []
proper_prefixes (p ∷ []) = []
proper_prefixes (p ∷ q ∷ ps) = (p ∷ []) ∷ map (λ prefix. p ∷ prefix) (proper_prefixes (q ∷ ps))

unfoldable pub is_through : List Text → List Text → Bool
is_through links parts = any (λ prefix. contains links (join b'/' prefix)) (proper_prefixes parts)

abbrev pub first_of : List Text → Text
first_of [] = []
first_of (p ∷ _) = p

unfoldable pub is_absolute : Text → Bool
is_absolute name = has_prefix name (codes "/") || has_prefix name (codes "\\")

unfoldable pub is_link : TypeFlag → Bool
is_link symlink = true
is_link link = true
is_link _ = false

unfoldable pub points_out : Text → Bool
points_out target =
    is_empty target || (is_absolute target || contains (split b'/' target) (codes ".."))

-- What a hard link is tested for besides.
unfoldable pub leads_out : Text → List Text → List Text → Bool
leads_out target parts links =
    let tparts = split b'/' target in
    not (text_eq (first_of tparts) (first_of parts)) || is_through links tparts

-- The `switch` of `unsafeMember` on the type flag.
unfoldable pub unsafe_flag : TypeFlag → Text → Text → List Text → List Text → Option Error
unsafe_flag symlink target name parts links =
    if points_out target then some (links_outside name target) else none
unsafe_flag link target name parts links =
    if points_out target || leads_out target parts links
    then some (links_outside name target)
    else none
unsafe_flag special target name parts links = some (device name)
unsafe_flag reg target name parts links = none
unsafe_flag cont target name parts links = none
unsafe_flag gnu_sparse target name parts links = none
unsafe_flag dir target name parts links = none

abbrev pub is_nil {ℓ} : {A : Type ℓ} → List A → Bool
is_nil [] = true
is_nil (_ ∷ _) = false

unfoldable pub unsafe_member : Header → Text → List Text → Option Error
unsafe_member hdr name links =
    let parts = clean_parts name in
    if is_absolute name
    then some (absolute name)
    else if is_nil parts || contains parts (codes "..")
    then some (leaves_folder name)
    else if is_through links parts
    then some (through_link name)
    else unsafe_flag hdr.flag hdr.linkname name parts links

pub record State : Type 0 where
  pub groups : Map (List Entry)
  pub order : List Text
  -- The names of the links so far.
  pub links : List Text

-- `hdr.Mode & 0o1777`
unfoldable pub plain_mode : ℕ → ℕ
plain_mode mode = mode % 1024

abbrev pub file_entry : Header → Text → Option Bytes → Result Entry
file_entry hdr name none = failed unreadable
file_entry hdr name (some bytes) = ok (record {
  header = record hdr { name = name; mode = plain_mode hdr.mode; flag = reg; size = length bytes };
  data_of = some bytes;
})

abbrev pub bare_entry : Header → Text → Result Entry
bare_entry hdr name = ok (record {
  header = record hdr { name = name; mode = plain_mode hdr.mode; size = 0 };
  data_of = none;
})

-- The `switch` of the callback on the type flag.
unfoldable pub entry_of : TypeFlag → Member → Text → Result Entry
entry_of reg m name = file_entry m.header name m.body
entry_of cont m name = file_entry m.header name m.body
entry_of gnu_sparse m name = file_entry m.header name m.body
entry_of dir m name = bare_entry m.header (name ++ b'/' ∷ [])
entry_of symlink m name = bare_entry m.header name
entry_of link m name = bare_entry m.header name
entry_of special m name = bare_entry m.header name

unfoldable pub store : Text → TypeFlag → Entry → State → State
store name flag e s =
    let top = first_of (split b'/' name) in
    record {
      groups = insert top (or_else (lookup top s.groups) [] ++ e ∷ []) s.groups;
      order = if is_some (lookup top s.groups) then s.order else s.order ++ top ∷ [];
      links = if is_link flag then name ∷ s.links else s.links;
    }

-- The callback of `SplitArchives`.
unfoldable pub accept : Member → State → Result State
accept m s =
    let name = trim_prefix m.header.name (codes "./") in
    let clean = join b'/' (clean_parts name) in
    elim (unsafe_member m.header name s.links) [
      | some why ↦ failed why
      | none ↦ bind (entry_of m.header.flag m clean) (λ e. ok (store clean m.header.flag e s))
    ]

unfoldable pub accept_all : List Member → State → Result State
accept_all [] s = ok s
accept_all (m ∷ ms) s = bind (accept m s) (λ s'. accept_all ms s')

-- One archive: its members up to its end or to a damaged header, and what is left behind it.
pub record Archive : Type 0 where
  pub members : List Member
  pub is_damaged : Bool
  pub rest : Bytes

unfoldable pub block : ℕ
block = 512

-- The next 512 bytes are there and all 0.
unfoldable pub is_padding : Bytes → Bool
is_padding r = not (ltb (length r) block) && not (any (λ b. not (b == 0)) (take block r))

-- On fuel; the length of the bytes is enough.
unfoldable pub skip_padding : ℕ → Bytes → Bytes
skip_padding zero r = r
skip_padding (suc n) r =
    let rest = skip_padding n (drop block r) in if is_padding r then rest else r

unfoldable pub skip_zeros : Bytes → Bytes
skip_zeros r = skip_padding (length r) r

-- The end of one archive.
unfoldable pub go_on : Archive → Result State → Result State
go_on a rest =
    if a.is_damaged
    then failed damaged_header
    else if is_nil a.members
    then failed damaged
    else rest

-- On fuel; one more than the length of the payload is enough.
unfoldable pub each_member : (Bytes → Archive) → ℕ → Bytes → State → Result State
each_member read zero r s = failed out_of_fuel
each_member read (suc n) r s =
    let a = read (skip_zeros r) in
    if ltb (length (skip_zeros r)) block
    then ok s
    else bind (accept_all a.members s) (λ s'. go_on a (each_member read n a.rest s'))

unfoldable pub write_groups :
    (List Entry → Option Bytes) → Map (List Entry) → List Text → Result (Map Bytes)
write_groups write groups [] = ok []
write_groups write groups (top ∷ order) = elim (write (or_else (lookup top groups) [])) [
  | none ↦ failed unwritable
  | some bytes ↦ bind (write_groups write groups order) (λ archives. ok ((top, bytes) ∷ archives))
]

abbrev pub empty_state : State
empty_state = record { groups = []; order = []; links = [] }

-- The groups and the order before they are written.
unfoldable pub grouped : (Bytes → Archive) → Bytes → Result State
grouped read payload = each_member read (suc (length payload)) payload empty_state

unfoldable pub split_archives :
    (Bytes → Archive) → (List Entry → Option Bytes) → Bytes → Result (Map Bytes)
split_archives read write payload =
    bind (grouped read payload) (λ s. write_groups write s.groups (sort text_lt s.order))

-- Opens the file and the text functions, for tests.
unfoldable pub split_defs : Unit {0}
unfolding texts clean_parts proper_prefixes is_through is_absolute is_link points_out leads_out
    unsafe_flag unsafe_member plain_mode entry_of store accept accept_all block is_padding
    skip_padding skip_zeros go_on each_member write_groups grouped split_archives
split_defs = tt
