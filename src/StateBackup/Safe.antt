-- ===== src/StateBackup/Safe.antt =====
-- About SplitArchives of internal/statebackup/split.go: the entries that a restore unpacks as root.
use cash_pilot_desktop.Base.{
  ℕ, suc, zero, Bool, true, false, ◌&&◌, ◌||◌, not, Option, none, some, List, [], ◌∷◌, ◌++◌, ◌≡◌,
  refl, sym, ◌∙◌, Text, codes, text_eq, text_eq_iff, split, join, contains, Map, lookup, insert,
  or_else, ltb, All, All-append, arith, Bool-cases, Option-cases, inl, inr, length, trim_prefix,
}
use cash_pilot_desktop.StateBackup.Paths.{
  IsPart, clean_parts-IsPart, clean_parts-join, clean_parts-slash, first_of-join,
}
use cash_pilot_desktop.StateBackup.Results.{Holds, bind-Holds, Holds-ok}
use cash_pilot_desktop.StateBackup.{
  Bytes, Header, Member, Entry, Result, ok, State, Archive, clean_parts, first_of, is_nil, is_link,
  points_out, leads_out, unsafe_flag, unsafe_member, plain_mode, entry_of, file_entry, bare_entry,
  store, accept, accept_all, each_member, go_on, grouped, empty_state, TypeFlag, reg, cont,
  gnu_sparse, dir, symlink, link, special, skip_zeros, block,
}

abbrev is_special : TypeFlag → Bool
is_special special = true
is_special _ = false

abbrev pub is_hard : TypeFlag → Bool
is_hard link = true
is_hard _ = false

-- The target of a hard link is a path of the archive, that of a symbolic link begins at the link.
abbrev pub link_leaves : Text → Header → Bool
link_leaves top hdr =
    (is_link hdr.flag && points_out hdr.linkname)
    || (is_hard hdr.flag && not (text_eq (first_of (split b'/' hdr.linkname)) top))

-- The entry stays in its folder: its path begins with the folder and has no "..", a link has a
-- relative target without ".." and a hard link one that begins with the folder, it is no device, and
-- it has no bits above the sticky one.
abbrev pub stays_in : Text → Entry → Bool
stays_in top e =
    let parts = clean_parts e.header.name in
    text_eq (first_of parts) top
    && (not (is_nil parts || contains parts (codes ".."))
        && (ltb e.header.mode 1024
            && (not (link_leaves top e.header) && not (is_special e.header.flag))))

abbrev pub Group : Text × List Entry → Type 0
Group (top, es) = All (λ e. stays_in top e ≡ true) es

abbrev pub Kept : State → Type 0
Kept s = All Group s.groups

lookup-Group :
    (top : Text) (groups : Map (List Entry))
    → All Group groups
    → Group (top, or_else (lookup top groups) [])
unfolding lookup
lookup-Group top [] h = tt
lookup-Group top ((j, es) ∷ groups) h = elim (Bool-cases (text_eq j top)) [
  | inl e ↦ rw (e, sym ((text_eq_iff j top).0 e)) h.0
  | inr e ↦ rw e (lookup-Group top groups h.1)
]

insert-Group :
    (top : Text) (es : List Entry) (groups : Map (List Entry))
    → Group (top, es)
    → All Group groups
    → All Group (insert top es groups)
unfolding insert
insert-Group top es [] h k = (h, tt)
insert-Group top es ((j, fs) ∷ groups) h k = elim (Bool-cases (text_eq j top)) [
  | inl e ↦ rw e (h, k.1)
  | inr e ↦ rw e (k.0, insert-Group top es groups h k.1)
]

unsafe_member-none :
    (hdr : Header) (name : Text) (links : List Text)
    → unsafe_member hdr name links ≡ none
    → ((is_nil (clean_parts name) || contains (clean_parts name) (codes "..")) ≡ false)
      × (unsafe_flag hdr.flag hdr.linkname name (clean_parts name) links ≡ none)
unfolding unsafe_member
unsafe_member-none hdr name links h = ground arith

plain_mode-ltb : (mode : ℕ) → ltb (plain_mode mode) 1024 ≡ true
unfolding plain_mode
plain_mode-ltb mode = ground arith

-- An entry whose name cleans to safe parts.
header-stays_in :
    (parts : List Text) (hdr : Header) (bytes : Option Bytes)
    → All IsPart parts
    → (is_nil parts || contains parts (codes "..")) ≡ false
    → clean_parts hdr.name ≡ parts
    → ltb hdr.mode 1024 ≡ true
    → link_leaves (first_of parts) hdr ≡ false
    → is_special hdr.flag ≡ false
    → stays_in (first_of (split b'/' (join b'/' parts))) (record { header = hdr; data_of = bytes })
      ≡ true
header-stays_in parts hdr bytes h n c m l d =
    rw
      (c, first_of-join parts h, (text_eq_iff (first_of parts) (first_of parts)).1 refl, n, m, l, d)
      refl

module _ (hdr : Header) (parts : List Text) (h : All IsPart parts)
    (n : (is_nil parts || contains parts (codes "..")) ≡ false) where
  abbrev InTop : Result Entry → Type 0
  InTop r = Holds (λ e. stays_in (first_of (split b'/' (join b'/' parts))) e ≡ true) r

  file_entry-InTop : (body : Option Bytes) → InTop (file_entry hdr (join b'/' parts) body)
  unfolding is_link
  file_entry-InTop none = tt
  file_entry-InTop (some bytes) =
      let made : Header = record hdr {
        name = join b'/' parts;
        mode = plain_mode hdr.mode;
        flag = reg;
        size = length bytes;
      } in
      header-stays_in parts made (some bytes) h n (clean_parts-join parts h)
        (plain_mode-ltb hdr.mode) refl refl

  bare_entry-InTop :
      (name : Text)
      → clean_parts name ≡ parts
      → link_leaves (first_of parts) hdr ≡ false
      → is_special hdr.flag ≡ false
      → InTop (bare_entry hdr name)
  bare_entry-InTop name c l d =
      let made : Header = record hdr { name = name; mode = plain_mode hdr.mode; size = 0 } in
      header-stays_in parts made none h n c (plain_mode-ltb hdr.mode) l d

  entry_of-InTop :
      (flag : TypeFlag) (name : Text) (links : List Text) (body : Option Bytes)
      → hdr.flag ≡ flag
      → unsafe_flag flag hdr.linkname name parts links ≡ none
      → InTop (entry_of flag (record { header = hdr; body = body }) (join b'/' parts))
  unfolding entry_of unsafe_flag is_link leads_out
  entry_of-InTop reg name links body e u = file_entry-InTop body
  entry_of-InTop cont name links body e u = file_entry-InTop body
  entry_of-InTop gnu_sparse name links body e u = file_entry-InTop body
  entry_of-InTop dir name links body e u =
      bare_entry-InTop (join b'/' parts ++ b'/' ∷ [])
        (clean_parts-slash (join b'/' parts) ∙ clean_parts-join parts h) (rw e refl) (rw e refl)
  entry_of-InTop symlink name links body e u =
      bare_entry-InTop (join b'/' parts) (clean_parts-join parts h) (rw e (ground arith))
        (rw e refl)
  entry_of-InTop link name links body e u =
      bare_entry-InTop (join b'/' parts) (clean_parts-join parts h) (rw e (ground arith))
        (rw e refl)
  entry_of-InTop special name links body e u = cc

store-Kept :
    (name : Text) (flag : TypeFlag) (e : Entry) (s : State)
    → stays_in (first_of (split b'/' name)) e ≡ true
    → Kept s
    → Kept (store name flag e s)
unfolding store
store-Kept name flag e s h k =
    let top = first_of (split b'/' name) in
    insert-Group top _ s.groups
      (All-append (λ e. stays_in top e ≡ true) (or_else (lookup top s.groups) []) (e ∷ [])
        (lookup-Group top s.groups k) (h, tt))
      k

accept-Kept : (m : Member) (s : State) → Kept s → Holds Kept (accept m s)
unfolding accept
accept-Kept m s k =
    let name = trim_prefix m.header.name (codes "./") in
    let parts = clean_parts name in
    elim (Option-cases (unsafe_member m.header name s.links)) [
      | inl u ↦
          let (n, f) = unsafe_member-none m.header name s.links u in
          rw (u, Holds)
            (bind-Holds _ Kept (entry_of m.header.flag m (join b'/' parts)) _
              (entry_of-InTop m.header parts (clean_parts-IsPart name) n m.header.flag name s.links
                m.body refl f)
              (λ e h. store-Kept (join b'/' parts) m.header.flag e s h k))
      | inr (why, u) ↦ rw (u, Holds) tt
    ]

accept_all-Kept : (ms : List Member) (s : State) → Kept s → Holds Kept (accept_all ms s)
unfolding accept_all
accept_all-Kept [] s k = k
accept_all-Kept (m ∷ ms) s k =
    bind-Holds Kept Kept (accept m s) _ (accept-Kept m s k) (λ s' h. accept_all-Kept ms s' h)

go_on-Holds :
    (P : State → Type 0) (a : Archive) (r : Result State) → Holds P r → Holds P (go_on a r)
unfolding go_on
go_on-Holds P a r h = elim (Bool-cases a.is_damaged) [
  | inl d ↦ rw d tt
  | inr d ↦ elim (Bool-cases (is_nil a.members)) [ inl n ↦ rw (d, n) tt | inr n ↦ rw (d, n) h ]
]

each_member-Kept :
    (read : Bytes → Archive) (n : ℕ) (r : Bytes) (s : State)
    → Kept s
    → Holds Kept (each_member read n r s)
unfolding each_member
each_member-Kept read zero r s k = tt
each_member-Kept read (suc n) r s k = elim (Bool-cases (ltb (length (skip_zeros r)) block)) [
  | inl e ↦ rw e k
  | inr e ↦ rw e (
      bind-Holds Kept Kept (accept_all (read (skip_zeros r)).members s) _
        (accept_all-Kept (read (skip_zeros r)).members s k)
        (λ s' h.
          go_on-Holds Kept (read (skip_zeros r)) _
            (each_member-Kept read n (read (skip_zeros r)).rest s' h)))
]

-- Whatever the payload holds, where it is split without an error every entry of a group stays in
-- the group's folder: its path begins with the folder's name and has no "..", a link's target is
-- relative and has no "..", a hard link's target begins with the folder's name too, it is no device,
-- and its mode has no bit above the sticky one.
pub grouped-stays_in :
    (read : Bytes → Archive) (payload : Bytes) (s : State)
    → grouped read payload ≡ ok s
    → All Group s.groups
unfolding grouped
grouped-stays_in read payload s e =
    Holds-ok Kept _ s (each_member-Kept read (suc (length payload)) payload empty_state tt) e
