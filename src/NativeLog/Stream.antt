-- ===== src/NativeLog/Stream.antt =====
-- About rotatingLogWriter of internal/runtime/native.go: the two files hold the end of the stream.
use cash_pilot_desktop.Base.{
  ℕ, zero, suc, true, List, [], ◌∷◌, ◌++◌, append_assoc, append_nil, ◌≡◌, refl, sym, ap, ◌∙◌, Text,
  length, take, All,
}
use cash_pilot_desktop.NativeLog.{
  Answers, Log, contents, opened_file, rotate, append, write_open, write,
}
use cash_pilot_desktop.NativeLog.Held.{if_either, write_either, write_open_either, write_all}

-- The bytes that the writes report as written.
abbrev pub reported : List (Answers × Text) → Log → Text
reported [] w = []
reported (turn ∷ turns) w =
    let out = write turn.0 turn.1 w in take out.1.count turn.1 ++ reported turns out.0

-- The rotated file and the current one are the end of the stream.
abbrev pub IsEndOf : Text → Log → Type 0
IsEndOf stream w = (lost : Text) × (lost ++ (contents w.rotated ++ contents w.current) ≡ stream)

take-length-take : (n : ℕ) (s : Text) → take (length (take n s)) s ≡ take n s
take-length-take zero s = refl
take-length-take (suc n) [] = refl
take-length-take (suc n) (c ∷ s) = rw (take-length-take n s) refl

IsEndOf-same : (a b : Text) (w : Log) → a ≡ b → IsEndOf a w → IsEndOf b w
IsEndOf-same a b w same (lost, e) = (lost, e ∙ same)

module _ (stream : Text) where
  append-IsEndOf :
      (os : Answers) (p : Text) (w : Log)
      → IsEndOf stream w
      → IsEndOf (stream ++ take (append os p w).1.count p) (append os p w).0
  unfolding append
  append-IsEndOf os p w (lost, e) =
      (lost, rw (take-length-take os.taken p, ← e) (simp (append_assoc)))

  rotate-IsEndOf :
      (os : Answers) (w : Log) → os.renamed ≡ true → IsEndOf stream w → IsEndOf stream (rotate os w)
  unfolding rotate
  rotate-IsEndOf os w r (lost, e) =
      let turned = lost ++ contents w.rotated in
      let same =
        append_assoc lost (contents w.rotated) (contents w.current ++ [])
        ∙ ap (λ s. lost ++ (contents w.rotated ++ s)) (append_nil (contents w.current))
        ∙ e in
      rw r (if_either (IsEndOf stream) os.reopened _ _ (λ _. (turned, same)) (λ _. (turned, same)))

  write_open-IsEndOf :
      (os : Answers) (p : Text) (w : Log)
      → os.renamed ≡ true
      → IsEndOf stream w
      → let out = write_open os p w in IsEndOf (stream ++ take out.1.count p) out.0
  write_open-IsEndOf os p w r at =
      let turned = rotate-IsEndOf os w r at in
      write_open_either (λ out. IsEndOf (stream ++ take out.1.count p) out.0) os p w
        (λ _. append-IsEndOf os p (rotate os w) turned)
        (IsEndOf-same _ _ (rotate os w) (sym (append_nil stream)) turned)
        (λ _. append-IsEndOf os p w at)

  write-IsEndOf :
      (os : Answers) (p : Text) (w : Log)
      → os.renamed ≡ true
      → IsEndOf stream w
      → let out = write os p w in IsEndOf (stream ++ take out.1.count p) out.0
  write-IsEndOf os p w r at =
      write_either (λ out. IsEndOf (stream ++ take out.1.count p) out.0) os p w
        (IsEndOf-same _ _ w (sym (append_nil stream)) at) (λ _. write_open-IsEndOf os p w r at)
        (write_open-IsEndOf os p (opened_file os w) r at)

-- While each rotation renames the file, the rotated file and then the current one are the end of the
-- stream that the log held before and that the writes since then report as written, in its order.
pub write_all-IsEndOf :
    (stream : Text) (turns : List (Answers × Text)) (w : Log)
    → All (λ turn. turn.0.renamed ≡ true) turns
    → IsEndOf stream w
    → IsEndOf (stream ++ reported turns w) (write_all turns w)
write_all-IsEndOf stream [] w h at = IsEndOf-same _ _ w (sym (append_nil stream)) at
write_all-IsEndOf stream ((os, p) ∷ turns) w h at =
    let out = write os p w in
    IsEndOf-same _ _ (write_all turns out.0)
      (append_assoc stream (take out.1.count p) (reported turns out.0))
      (write_all-IsEndOf (stream ++ take out.1.count p) turns out.0 h.1
        (write-IsEndOf stream os p w h.0 at))
