-- ===== src/Health/Refresh.antt =====
-- About refresh of internal/health/windowed.go: the verdict that a background check leaves.
use cash_pilot_desktop.Base.{
  append_nil, append_assoc, ℕ, Bool, true, false, ◌&&◌, some, List, [], ◌∷◌, ◌++◌, map, ◌≡◌, refl,
  sym, ap, ◌∙◌, Text, text_eq_iff, Map, lookup, lookup-insert, if◌then◌else◌, or_else, any, keep,
  is_some, Bool-cases, Option-cases, inl, inr, ◌⊎◌,
}
use cash_pilot_desktop.Catalog.{HealthSignal}
use cash_pilot_desktop.Health.Assess.{Engine, Bytes, Hit}
use cash_pilot_desktop.Health.Windows.{
  window_filter, windowed_hit, Entry, new_entry, Windows, Read, unreadable, lines, windowed_hit_of,
  refresh_hits, finish,
}

abbrev is_unreadable : Read → Bool
is_unreadable unreadable = true
is_unreadable (lines _) = false

abbrev hits_in : Engine → HealthSignal → Read → Bool
hits_in compile s unreadable = false
hits_in compile s (lines logs) = windowed_hit compile logs s

-- A signal whose pattern is valid and whose logs cannot be read.
abbrev pub fails : Engine → (HealthSignal → Read) → HealthSignal → Bool
fails compile read s = is_some (compile (window_filter s)) && is_unreadable (read s)

-- A signal whose pattern is valid and hits the logs of its window.
abbrev pub hits_window : Engine → (HealthSignal → Read) → HealthSignal → Bool
hits_window compile read s = is_some (compile (window_filter s)) && hits_in compile s (read s)

Read-cases : (r : Read) → (r ≡ unreadable) ⊎ ((logs : Bytes) × (r ≡ lines logs))
Read-cases unreadable = inl refl
Read-cases (lines logs) = inr (logs, refl)

module _ (compile : Engine) (lan : Text) (vars : Map Text) (read : HealthSignal → Read) where
  -- What is kept of a check: nothing new where a read failed.
  abbrev kept_of : List Hit → Bool × List Hit → List Hit
  kept_of old result = if result.0 then old else result.1

  refresh_hits-kept :
      (old hits : List Hit) (signals : List HealthSignal)
      → kept_of old (refresh_hits compile lan vars read hits signals) ≡ (
          if any (fails compile read) signals
          then old
          else hits ++ map (windowed_hit_of lan vars) (keep (hits_window compile read) signals))
  unfolding refresh_hits
  refresh_hits-kept old hits [] = sym (append_nil hits)
  refresh_hits-kept old hits (s ∷ signals) = elim (Option-cases (compile (window_filter s))) [
    | inl c ↦ rw (c, refresh_hits) (refresh_hits-kept old hits signals)
    | inr (re, c) ↦ elim (Read-cases (read s)) [
      | inl r ↦ rw (c, r, refresh_hits) refl
      | inr (logs, r) ↦ elim (Bool-cases (windowed_hit compile logs s)) [
        | inl w ↦
            rw (c, r, w, refresh_hits)
              (refresh_hits-kept old (hits ++ windowed_hit_of lan vars s ∷ []) signals
                ∙ ap (λ xs. if any (fails compile read) signals then old else xs)
                    (append_assoc hits _ _))
        | inr w ↦ rw (c, r, w, refresh_hits) (refresh_hits-kept old hits signals)
      ]
    ]
  ]

  -- A background check ends with the entry not running and checked now. Its hits are those of the
  -- signals that hit the logs of their window, in order, or the last ones where the logs of a
  -- signal with a valid pattern could not be read.
  pub finish-refresh_hits :
      (now : ℕ) (slug : Text) (signals : List HealthSignal) (w : Windows)
      → lookup slug (finish now slug (refresh_hits compile lan vars read [] signals) w).entries
        ≡ some (record {
          checked = some now;
          running = false;
          hits =
              if any (fails compile read) signals
              then (or_else (lookup slug w.entries) new_entry).hits
              else map (windowed_hit_of lan vars) (keep (hits_window compile read) signals);
        })
  unfolding finish
  finish-refresh_hits now slug signals w =
      let old = (or_else (lookup slug w.entries) new_entry).hits in
      let ended : List Hit → Entry =
        λ hits. record { checked = some now; running = false; hits = hits } in
      lookup-insert slug slug (ended (kept_of old (refresh_hits compile lan vars read [] signals)))
        w.entries
      ∙ rw ((text_eq_iff slug slug).1 refl)
          (ap (λ hits. some (ended hits)) (refresh_hits-kept old [] signals))
