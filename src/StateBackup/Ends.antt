-- ===== src/StateBackup/Ends.antt =====
-- About eachMember of internal/statebackup/split.go: the two loops over the payload.
use cash_pilot_desktop.Base.{
  ℕ, suc, zero, ◌<◌, ◌≤◌, Bool, true, false, Option, none, some, List, [], ◌∷◌, ◌≡◌, ◌≢◌, refl, sym,
  ap, Text, Map, lookup, sort, text_lt, or_else, ltb, length, drop, length-drop, arith, Bool-cases,
  Option-cases, inl, inr, join, trim_prefix, codes, ◌∙◌,
}
use cash_pilot_desktop.StateBackup.{
  Bytes, Header, Member, Entry, Error, Result, ok, failed, bind, State, Archive, out_of_fuel,
  clean_parts, is_nil, unsafe_flag, unsafe_member, entry_of, file_entry, accept, accept_all,
  is_padding, block, skip_padding, skip_zeros, go_on, each_member, write_groups, grouped,
  split_archives, empty_state, TypeFlag, reg, cont, gnu_sparse, dir, symlink, link, special,
}

abbrev is_spent : Error → Bool
is_spent out_of_fuel = true
is_spent _ = false

-- The result of a loop that ran out of fuel.
abbrev spent {ℓ} : {A : Type ℓ} → Result A → Bool
spent (ok a) = false
spent (failed why) = is_spent why

bind-spent {ℓ κ} :
    {A : Type ℓ} {B : Type κ} (r : Result A) (f : A → Result B)
    → spent r ≡ false
    → ((a : A) → spent (f a) ≡ false)
    → spent (bind r f) ≡ false
bind-spent (ok a) f h k = k a
bind-spent (failed why) f h k = h

abbrev fails_spent : Option Error → Bool
fails_spent none = false
fails_spent (some why) = is_spent why

unsafe_flag-spent :
    (flag : TypeFlag) (target name : Text) (parts links : List Text)
    → fails_spent (unsafe_flag flag target name parts links) ≡ false
unfolding unsafe_flag
unsafe_flag-spent reg target name parts links = refl
unsafe_flag-spent cont target name parts links = refl
unsafe_flag-spent gnu_sparse target name parts links = refl
unsafe_flag-spent dir target name parts links = refl
unsafe_flag-spent symlink target name parts links = ground arith
unsafe_flag-spent link target name parts links = ground arith
unsafe_flag-spent special target name parts links = refl

unsafe_member-spent :
    (hdr : Header) (name : Text) (links : List Text)
    → fails_spent (unsafe_member hdr name links) ≡ false
unfolding unsafe_member
unsafe_member-spent hdr name links =
    ground (arith, unsafe_flag-spent hdr.flag hdr.linkname name (clean_parts name) links)

file_entry-spent :
    (hdr : Header) (name : Text) (body : Option Bytes) → spent (file_entry hdr name body) ≡ false
file_entry-spent hdr name none = refl
file_entry-spent hdr name (some bytes) = refl

entry_of-spent : (flag : TypeFlag) (m : Member) (name : Text) → spent (entry_of flag m name) ≡ false
unfolding entry_of
entry_of-spent reg m name = file_entry-spent m.header name m.body
entry_of-spent cont m name = file_entry-spent m.header name m.body
entry_of-spent gnu_sparse m name = file_entry-spent m.header name m.body
entry_of-spent dir m name = refl
entry_of-spent symlink m name = refl
entry_of-spent link m name = refl
entry_of-spent special m name = refl

accept-spent : (m : Member) (s : State) → spent (accept m s) ≡ false
unfolding accept
accept-spent m s =
    let name = trim_prefix m.header.name (codes "./") in
    elim (Option-cases (unsafe_member m.header name s.links)) [
      | inl u ↦
          rw (u, spent)
            (bind-spent (entry_of m.header.flag m (join b'/' (clean_parts name))) _
              (entry_of-spent m.header.flag m _) (λ e. refl))
      | inr (why, u) ↦
          rw (u, spent) (sym (ap fails_spent u) ∙ unsafe_member-spent m.header name s.links)
    ]

accept_all-spent : (ms : List Member) (s : State) → spent (accept_all ms s) ≡ false
unfolding accept_all
accept_all-spent [] s = refl
accept_all-spent (m ∷ ms) s =
    bind-spent (accept m s) _ (accept-spent m s) (λ s'. accept_all-spent ms s')

skip_padding-length : (n : ℕ) (r : Bytes) → length (skip_padding n r) ≤ length r
unfolding skip_padding
skip_padding-length zero r = omega arith
skip_padding-length (suc n) r =
    ground (arith, skip_padding-length n (drop block r), length-drop block r)

is_padding-length : (r : Bytes) → is_padding r ≡ true → block ≤ length r
unfolding is_padding
is_padding-length r h = ground arith

block-positive : 0 < block
unfolding block
block-positive = omega arith

skip_padding-stops : (n : ℕ) (r : Bytes) → length r ≤ n → is_padding (skip_padding n r) ≡ false
unfolding skip_padding
skip_padding-stops zero r h = elim (Bool-cases (is_padding r)) [
  | inl p ↦ absurd (omega (arith, is_padding-length r p, block-positive))
  | inr p ↦ p
]
skip_padding-stops (suc n) r h = elim (Bool-cases (is_padding r)) [
  | inl p ↦ rw p (
      skip_padding-stops n (drop block r)
        (omega (arith, is_padding-length r p, block-positive, length-drop block r)))
  | inr p ↦ rw (p, p) refl
]

-- The bytes between two archives are skipped to the end of the zero blocks: what is left has less
-- than a block or begins with a block that is not zero.
pub skip_zeros-stops : (r : Bytes) → is_padding (skip_zeros r) ≡ false
unfolding skip_zeros
skip_zeros-stops r = skip_padding-stops (length r) r (omega arith)

-- Reading an archive with a member takes bytes.
abbrev pub Takes : (Bytes → Archive) → Type 0
Takes read = (r : Bytes) → is_nil (read r).members ≡ false → length (read r).rest < length r

go_on-spent :
    (a : Archive) (r : Result State)
    → (is_nil a.members ≡ false → spent r ≡ false)
    → spent (go_on a r) ≡ false
unfolding go_on
go_on-spent a r h = ground (arith, h)

skip_zeros-length : (r : Bytes) → length (skip_zeros r) ≤ length r
unfolding skip_zeros
skip_zeros-length r = skip_padding-length (length r) r

each_member-spent :
    (read : Bytes → Archive)
    → Takes read
    → (n : ℕ) (r : Bytes) (s : State) → length r < n
    → spent (each_member read n r s) ≡ false
unfolding each_member
each_member-spent read t zero r s h = absurd (omega arith)
each_member-spent read t (suc n) r s h =
    let a = read (skip_zeros r) in
    elim (Bool-cases (ltb (length (skip_zeros r)) block)) [
      | inl e ↦ rw e refl
      | inr e ↦ rw e (
          bind-spent (accept_all a.members s) _ (accept_all-spent a.members s) (λ s'.
            go_on-spent a _ (λ m.
              each_member-spent read t n a.rest s'
                (omega (arith, t (skip_zeros r) m, skip_zeros-length r)))))
    ]

write_groups-spent :
    (write : List Entry → Option Bytes) (groups : Map (List Entry)) (order : List Text)
    → spent (write_groups write groups order) ≡ false
unfolding write_groups
write_groups-spent write groups [] = refl
write_groups-spent write groups (top ∷ order) =
    elim (Option-cases (write (or_else (lookup top groups) []))) [
      | inl e ↦ rw (e, spent) refl
      | inr (bytes, e) ↦
          rw (e, spent)
            (bind-spent (write_groups write groups order) _ (write_groups-spent write groups order)
              (λ archives. refl))
    ]

true-false : true ≡ false → ⊥
true-false e = cc

-- Where reading an archive with a member takes bytes, splitting a payload of any length ends: the
-- fuel, one more than the payload's length, is never used up.
pub split_archives-ends :
    (read : Bytes → Archive) (write : List Entry → Option Bytes) (payload : Bytes)
    → Takes read
    → split_archives read write payload ≢ failed out_of_fuel
unfolding split_archives grouped
split_archives-ends read write payload t e = true-false (
    sym (ap spent e)
    ∙ bind-spent (grouped read payload) _
        (each_member-spent read t (suc (length payload)) payload empty_state (omega arith))
        (λ s. write_groups-spent write s.groups (sort text_lt s.order)))
