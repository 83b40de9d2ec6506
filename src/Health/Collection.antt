-- ===== src/Health/Collection.antt =====
-- About Collect of internal/health/collect.go: what a collection over all deployed services reports, and what it does to the cache.
use cash_pilot_desktop.Base.{
  ℕ, Bool, ◌&&◌, ◌||◌, not, Option, List, [], ◌∷◌, ◌≡◌, refl, ◌∙◌, Text, text_eq, is_empty, Map,
  lookup, insert, lookup-insert, is_some, any, arith, Bool-cases, inl, inr, or_false, sym,
}
use cash_pilot_desktop.Health.Assess.{Engine, Report, Input, assess, is_nil}
use cash_pilot_desktop.Health.Windows.{Windows, windowed_only}
use cash_pilot_desktop.Health.Collect.{
  Deployed, LogReader, ServiceLookup, is_up, can_window, window_turn, collect_loop, collect,
  input_of, complete,
}
use cash_pilot_desktop.Health.OneRefresh.{Reach, here, next, requested, forgotten}

abbrev pub is_collected : Text → Deployed → Bool
is_collected slug dep = not (is_empty dep.slug) && text_eq dep.slug slug

Reach-trans : {u v w : Windows} → Reach u v → Reach v w → Reach u w
Reach-trans r here = r
Reach-trans r (next q s) = next (Reach-trans r q) s

window_turn-Reach :
    (reader : Option LogReader) (now : ℕ) (i : Input) (w : Windows)
    → Reach w (window_turn reader now i w).1
unfolding window_turn
window_turn-Reach reader now i w = elim (Bool-cases (is_nil (windowed_only i.signals).0)) [
  | inl n ↦ rw n here
  | inr n ↦ elim (Bool-cases (is_up i.container_state)) [
    | inl u ↦ elim (Bool-cases (can_window reader)) [
      | inl c ↦ rw (n, u, c) (next here (requested now i.slug w))
      | inr c ↦ rw (n, u, c) here
    ]
    | inr u ↦ rw (n, u) (next here (forgotten i.slug w))
  ]
]

module _ (compile : Engine) (reader : Option LogReader) (services : Option ServiceLookup)
    (clock : List Deployed → ℕ) where
  collect_loop-Reach :
      (deployed : List Deployed) (out : Map Report) (w : Windows)
      → Reach w (collect_loop compile reader services clock deployed out w).1
  unfolding collect_loop
  collect_loop-Reach [] out w = here
  collect_loop-Reach (dep ∷ deployed) out w = elim (Bool-cases (is_empty dep.slug)) [
    | inl e ↦ rw e (collect_loop-Reach deployed out w)
    | inr e ↦ rw e (
        Reach-trans (window_turn-Reach reader (clock (dep ∷ deployed)) (input_of services dep) w)
          (collect_loop-Reach deployed _ _))
  ]

  -- The cache that a collection leaves is reached from the one it finds by requests and forgets, so
  -- that what holds in every reachable cache holds after a collection.
  pub collect-Reach :
      (deployed : List Deployed) (w : Windows)
      → Reach w (collect compile reader services clock deployed w).1
  unfolding collect
  collect-Reach deployed w = collect_loop-Reach deployed [] w

  collect_loop-is_some :
      (slug : Text) (deployed : List Deployed) (out : Map Report) (w : Windows)
      → is_some (lookup slug (collect_loop compile reader services clock deployed out w).0)
        ≡ (any (is_collected slug) deployed || is_some (lookup slug out))
  unfolding collect_loop
  collect_loop-is_some slug [] out w = refl
  collect_loop-is_some slug (dep ∷ deployed) out w =
      let i = input_of services dep in
      let turn = window_turn reader (clock (dep ∷ deployed)) i w in
      let r = assess compile (complete compile reader turn.0 i) in
      ground (
        arith,
        collect_loop-is_some slug deployed out w,
        collect_loop-is_some slug deployed (insert dep.slug r out) turn.1,
        lookup-insert dep.slug slug r out,
      )

  -- A collection reports on a service exactly when a deployed service with a name has its slug.
  pub collect-is_some :
      (slug : Text) (deployed : List Deployed) (w : Windows)
      → is_some (lookup slug (collect compile reader services clock deployed w).0)
        ≡ any (is_collected slug) deployed
  unfolding collect lookup
  collect-is_some slug deployed w =
      collect_loop-is_some slug deployed [] w ∙ sym (or_false (any (is_collected slug) deployed))
