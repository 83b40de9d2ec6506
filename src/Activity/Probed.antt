-- ===== src/Activity/Probed.antt =====
-- About Plan and JoinableRuntimes of internal/activity/activity.go: which namespaces are probed.
use cash_pilot_desktop.Base.{
  ℕ, suc, zero, Bool, true, false, ◌&&◌, ◌||◌, not, Option, none, some, List, [], ◌∷◌, ◌++◌, ◌≡◌,
  refl, sym, ap, ◌∙◌, Text, codes, text_eq, text_eq_iff, is_empty, has_prefix, contains, Map,
  lookup, insert, if◌then◌else◌, any, any-append, All, arith, Bool-cases, Option-cases, inl, inr,
  map, keep, is_some,
}
use cash_pilot_desktop.Activity.{
  Container, Kind, netns, cgroup, Group, RuntimeSpec, plain_runtimes, is_joinable,
  joinable_runtimes, Lookup, joins, joined_to, chase, max_hops, Plan, skip, mode_of, by_cgroup,
  join_group, plan_joined, plan_one, plan_loop, plan,
}

abbrev is_nil : List Text → Bool
is_nil [] = true
is_nil (_ ∷ _) = false

abbrev has_own_namespace : Container → Bool
has_own_namespace c = not (text_eq c.network_mode (codes "host")) && not (joins c.network_mode)

abbrev fits : Kind → Bool → Bool
fits netns own = own
fits cgroup own = true

-- A group can be probed: its owner's runtime keeps its sockets in the kernel's namespace, it has a
-- member, and a namespace is joined only at a container that has it for its own.
abbrev pub is_probed : List Text → Group → Bool
is_probed joinable g =
    contains joinable g.owner.runtime
    && (not (is_nil g.members) && fits g.kind (has_own_namespace g.owner))

some-injective {ℓ} : {A : Type ℓ} (a b : A) → some a ≡ some b → a ≡ b
some-injective a b e = cc

none-some {ℓ} : {A : Type ℓ} (b : A) → none ≡ some b → ⊥
none-some b e = cc

chase-joins :
    (find : Lookup) (n : ℕ) (o : Option Container) (c : Container)
    → chase find n o ≡ some c
    → joins c.network_mode ≡ false
unfolding chase
chase-joins find n none c e = cc
chase-joins find zero (some owner) c e = elim (Bool-cases (joins owner.network_mode)) [
  | inl t ↦ absurd (none-some c (rw t at e))
  | inr f ↦ rw (sym (some-injective owner c (rw f at e))) f
]
chase-joins find (suc n) (some owner) c e = elim (Bool-cases (joins owner.network_mode)) [
  | inl t ↦ chase-joins find n (find (joined_to owner.network_mode)) c (rw t at e)
  | inr f ↦ rw (sym (some-injective owner c (rw f at e))) f
]

default_own :
    (m : Text)
    → (is_empty m || text_eq m (codes "default")) ≡ true
    → (not (text_eq m (codes "host")) && not (joins m)) ≡ true
unfolding text_eq has_prefix
default_own [] h = refl
default_own (x ∷ m) h =
    ap (λ t. not (text_eq t (codes "host")) && not (joins t))
      ((text_eq_iff (x ∷ m) (codes "default")).0 h)

mode_of-own :
    (c : Container)
    → text_eq (mode_of c) (codes "host") ≡ false
    → joins (mode_of c) ≡ false
    → has_own_namespace c ≡ true
unfolding mode_of
mode_of-own c h j =
    elim (Bool-cases (is_empty c.network_mode || text_eq c.network_mode (codes "default"))) [
      | inl d ↦ default_own c.network_mode d
      | inr d ↦ rw ((rw d at h), (rw d at j)) refl
    ]

append-is_nil : (xs : List Text) (x : Text) → is_nil (xs ++ x ∷ []) ≡ false
append-is_nil [] x = refl
append-is_nil (y ∷ xs) x = refl

all_three : {a b : Bool} → a ≡ true → b ≡ true → (a && (true && b)) ≡ true
all_three {a} {b} h k = rw (h, k) refl

abbrev pub Probed : List Text → Text × Group → Type 0
Probed joinable (id, g) = is_probed joinable g ≡ true

module _ (joinable : List Text) where
  insert-Probed :
      (id : Text) (g : Group) (groups : Map Group)
      → is_probed joinable g ≡ true
      → All (Probed joinable) groups
      → All (Probed joinable) (insert id g groups)
  unfolding insert
  insert-Probed id g [] h k = (h, tt)
  insert-Probed id g ((j, f) ∷ groups) h k = elim (Bool-cases (text_eq j id)) [
    | inl e ↦ rw e (h, k.1)
    | inr e ↦ rw e (k.0, insert-Probed id g groups h k.1)
  ]

  lookup-Probed :
      (id : Text) (groups : Map Group) (g : Group)
      → All (Probed joinable) groups
      → lookup id groups ≡ some g
      → is_probed joinable g ≡ true
  unfolding lookup
  lookup-Probed id [] g k e = cc
  lookup-Probed id ((j, f) ∷ groups) g k e = elim (Bool-cases (text_eq j id)) [
    | inl t ↦ ap (is_probed joinable) (sym (some-injective f g (rw t at e))) ∙ k.0
    | inr t ↦ lookup-Probed id groups g k.1 (rw t at e)
  ]

  grown :
      (g : Group) (member mode : Text)
      → is_probed joinable g ≡ true
      → is_probed joinable (record g { members = g.members ++ member ∷ []; mode = mode }) ≡ true
  grown g member mode h = ground (arith, append-is_nil g.members member)

  join_group-Probed :
      (names : List Text) (c owner : Container) (p : Plan)
      → contains joinable owner.runtime ≡ true
      → has_own_namespace owner ≡ true
      → All (Probed joinable) p.groups
      → All (Probed joinable) (join_group names c owner p).groups
  unfolding join_group
  join_group-Probed names c owner p r o k = elim (Option-cases (lookup owner.id p.groups)) [
    | inl n ↦ insert-Probed owner.id _ p.groups (rw n (all_three r o)) k
    | inr (g, s) ↦
        insert-Probed owner.id _ p.groups
          (rw s (
            grown g c.name (if text_eq owner.id c.id then mode_of c else g.mode)
              (lookup-Probed owner.id p.groups g k s)))
          k
  ]

  plan_joined-Probed :
      (names : List Text) (c : Container) (o : Option Container) (p : Plan)
      → contains joinable c.runtime ≡ true
      → ((owner : Container) → o ≡ some owner → joins owner.network_mode ≡ false)
      → All (Probed joinable) p.groups
      → All (Probed joinable) (plan_joined joinable names c o p).groups
  unfolding plan_joined by_cgroup skip
  plan_joined-Probed names c none p r j k = k
  plan_joined-Probed names c (some owner) p r j k =
      elim (Bool-cases (text_eq owner.network_mode (codes "host"))) [
        | inl h ↦ rw h (insert-Probed c.id _ p.groups (rw r refl) k)
        | inr h ↦ elim (Bool-cases (contains joinable owner.runtime)) [
          | inl s ↦ rw (h, s) (join_group-Probed names c owner p s (rw (h, j owner refl) refl) k)
          | inr s ↦ rw (h, s) k
        ]
      ]

  plan_own-Probed :
      (find : Lookup) (names : List Text) (c : Container) (p : Plan)
      → contains joinable c.runtime ≡ true
      → All (Probed joinable) p.groups
      → All
          (Probed joinable)
          (if text_eq (mode_of c) (codes "host")
            then by_cgroup c p
            else if joins (mode_of c)
            then plan_joined joinable names c (chase find max_hops (find (joined_to (mode_of c)))) p
            else join_group names c c p).groups
  unfolding by_cgroup
  plan_own-Probed find names c p r k = elim (Bool-cases (text_eq (mode_of c) (codes "host"))) [
    | inl h ↦ rw h (insert-Probed c.id _ p.groups (rw r refl) k)
    | inr h ↦ elim (Bool-cases (joins (mode_of c))) [
      | inl j ↦
          rw (h, j)
            (plan_joined-Probed names c (chase find max_hops (find (joined_to (mode_of c)))) p r
              (λ owner e. chase-joins find max_hops (find (joined_to (mode_of c))) owner e) k)
      | inr j ↦ rw (h, j) (join_group-Probed names c c p r (mode_of-own c h j) k)
    ]
  ]

  plan_one-Probed :
      (find : Lookup) (names : List Text) (c : Container) (p : Plan)
      → All (Probed joinable) p.groups
      → All (Probed joinable) (plan_one find joinable names c p).groups
  unfolding plan_one by_cgroup skip
  plan_one-Probed find names c p k =
      elim (Bool-cases (is_some (lookup (codes "cashpilot.probe") c.labels))) [
        | inl a ↦ rw a k
        | inr a ↦ elim (Bool-cases (text_eq (mode_of c) (codes "none"))) [
          | inl b ↦ rw (a, b) k
          | inr b ↦ elim (Bool-cases (contains joinable c.runtime)) [
            | inr r ↦ rw (a, b, r) k
            | inl r ↦ rw (a, b, r) (plan_own-Probed find names c p r k)
          ]
        ]
      ]

  plan_loop-Probed :
      (find : Lookup) (names : List Text) (cs : List Container) (p : Plan)
      → All (Probed joinable) p.groups
      → All (Probed joinable) (plan_loop find joinable names cs p).groups
  unfolding plan_loop
  plan_loop-Probed find names [] p k = k
  plan_loop-Probed find names (c ∷ cs) p k =
      plan_loop-Probed find names cs (plan_one find joinable names c p)
        (plan_one-Probed find names c p k)

-- Every group of a plan can be probed: the runtime of its owner is one whose sockets can be seen,
-- it has a member, and where a namespace is to be joined its owner is a container that is neither on
-- the host network nor in another container's namespace, however long the chain that led there.
pub plan-Probed :
    (earners : List Container) (find : Lookup) (joinable : List Text)
    → All (Probed joinable) (plan earners find joinable).groups
unfolding plan
plan-Probed earners find joinable = plan_loop-Probed joinable find _ earners _ tt

-- A runtime is joinable exactly when it is one of the plain names, or is registered with a plain
-- binary, or as gVisor on the host network.
pub contains-joinable_runtimes :
    (runtimes : Map RuntimeSpec) (name : Text)
    → contains (joinable_runtimes runtimes) name
      ≡ (contains plain_runtimes name || any (λ r. text_eq r.0 name && is_joinable r) runtimes)
unfolding joinable_runtimes
contains-joinable_runtimes runtimes name =
    any-append (λ v. text_eq v name) plain_runtimes (map (λ r. r.0) (keep is_joinable runtimes))
    ∙ ap (λ b. contains plain_runtimes name || b) (kept runtimes)
  where
    kept :
        (rs : Map RuntimeSpec)
        → contains (map (λ r. r.0) (keep is_joinable rs)) name
          ≡ any (λ r. text_eq r.0 name && is_joinable r) rs
    kept [] = refl
    kept (r ∷ rs) = ground (arith, kept rs)
