-- ===== src/StateBackup/Groups.antt =====
-- About SplitArchives of internal/statebackup/split.go: how the entries are regrouped.
use cash_pilot_desktop.Base.{
  append_nil, append_assoc, List, [], ◌∷◌, ◌++◌, ◌≡◌, refl, sym, ap, ◌∙◌, Text, codes, text_eq,
  text_eq_iff, split, join, trim_prefix, lookup, lookup-insert, or_else, if◌then◌else◌, Bool-cases,
  Option-cases, inl, inr,
}
use cash_pilot_desktop.StateBackup.Results.{Holds, Holds-ok, Result-cases, failed_ok, ok-injective}
use cash_pilot_desktop.StateBackup.{
  Member, Entry, Result, ok, failed, bind, State, TypeFlag, clean_parts, first_of, unsafe_member,
  entry_of, store, accept, accept_all,
}

abbrev pub group_of : Text → State → List Entry
group_of top s = or_else (lookup top s.groups) []

abbrev clean_name : Member → Text
clean_name m = join b'/' (clean_parts (trim_prefix m.header.name (codes "./")))

-- The entry of a member, if its path begins with `top`.
abbrev picked : Text → Text → Result Entry → List Entry
picked top name (failed _) = []
picked top name (ok e) = if text_eq (first_of (split b'/' name)) top then e ∷ [] else []

-- The entries of the members whose path begins with `top`, in the order of the archive.
abbrev pub entries_under : Text → List Member → List Entry
entries_under top [] = []
entries_under top (m ∷ ms) =
    picked top (clean_name m) (entry_of m.header.flag m (clean_name m)) ++ entries_under top ms

module _ (top : Text) where
  store-group :
      (name : Text) (flag : TypeFlag) (e : Entry) (s : State)
      → group_of top (store name flag e s) ≡ group_of top s ++ picked top name (ok e)
  unfolding store
  store-group name flag e s =
      let k = first_of (split b'/' name) in
      let grown = or_else (lookup k s.groups) [] ++ e ∷ [] in
      ap (λ o. or_else o []) (lookup-insert k top grown s.groups)
      ∙ elim (Bool-cases (text_eq k top)) [
        | inl t ↦ rw (t, (text_eq_iff k top).0 t) refl
        | inr t ↦ rw t (sym (append_nil (group_of top s)))
      ]

  abbrev Grown : Member → State → State → Type 0
  Grown m s t =
      group_of top t
      ≡ group_of top s ++ picked top (clean_name m) (entry_of m.header.flag m (clean_name m))

  bind-group :
      (m : Member) (s : State) (r : Result Entry)
      → Holds
          (λ t. group_of top t ≡ group_of top s ++ picked top (clean_name m) r)
          (bind r (λ e. ok (store (clean_name m) m.header.flag e s)))
  bind-group m s (ok e) = store-group (clean_name m) m.header.flag e s
  bind-group m s (failed why) = tt

  accept-group : (m : Member) (s : State) → Holds (Grown m s) (accept m s)
  unfolding accept
  accept-group m s =
      let name = trim_prefix m.header.name (codes "./") in
      elim (Option-cases (unsafe_member m.header name s.links)) [
        | inl u ↦ rw (u, Holds) (bind-group m s (entry_of m.header.flag m (clean_name m)))
        | inr (why, u) ↦ rw (u, Holds) tt
      ]

  -- An archive that is accepted as a whole adds to the group of each top folder exactly the entries
  -- of its members under that folder, in their order: none is lost, repeated or put elsewhere.
  pub accept_all-entries_under :
      (ms : List Member) (s s' : State)
      → accept_all ms s ≡ ok s'
      → group_of top s' ≡ group_of top s ++ entries_under top ms
  unfolding accept_all
  accept_all-entries_under [] s s' e =
      ap (group_of top) (sym (ok-injective s s' e)) ∙ sym (append_nil (group_of top s))
  accept_all-entries_under (m ∷ ms) s s' e = elim (Result-cases (accept m s)) [
    | inl (t, a) ↦
        let rest = ap (λ r. bind r (λ u. accept_all ms u)) a in
        let step : Grown m s t = Holds-ok (Grown m s) (accept m s) t (accept-group m s) a in
        accept_all-entries_under ms t s' (sym rest ∙ e)
        ∙ ap (λ xs. xs ++ entries_under top ms) step
        ∙ append_assoc (group_of top s) _ (entries_under top ms)
    | inr (why, a) ↦ absurd (failed_ok _ s' why (ap (λ r. bind r (λ u. accept_all ms u)) a) e)
  ]
