-- ===== src/NativeLog/Tests.antt =====
-- A log of four bytes that three writes rotate twice.
use cash_pilot_desktop.Base.{
  ℕ, true, some, none, List, [], ◌∷◌, ◌++◌, ◌≡◌, refl, ◌≤◌, pos, Text, codes, length, texts, arith,
}
use cash_pilot_desktop.NativeLog.{Answers, Log, contents, new_log, native_log_defs, read_log_tail}
use cash_pilot_desktop.NativeLog.Held.{write_all, write_all-bounded}
use cash_pilot_desktop.NativeLog.Stream.{IsEndOf, reported, write_all-IsEndOf}

-- All calls succeed, and a write takes that many bytes.
abbrev takes : ℕ → Answers
takes n = record {
  dir_made = true;
  opened = true;
  stated = true;
  renamed = true;
  reopened = true;
  taken = n;
}

abbrev turns : List (Answers × Text)
turns = (takes 9, codes "abc") ∷ (takes 2, codes "def") ∷ (takes 9, codes "ghi") ∷ []

abbrev empty_log : Log
empty_log = new_log (pos 4) none none

rotated_twice : (write_all turns empty_log).rotated ≡ some (codes "de")
unfolding native_log_defs texts
rotated_twice = refl

tail_of_both : read_log_tail 100 (write_all turns empty_log) (pos 5) ≡ codes "deghi"
unfolding native_log_defs texts
tail_of_both = refl

write_all-bounded_example :
    let w = write_all turns empty_log in
    (length (contents w.current) ≤ 4) × (length (contents w.rotated) ≤ 4)
write_all-bounded_example =
    write_all-bounded (pos 4) none none 4 turns refl (omega arith) (omega arith) (omega arith)
      ((refl, omega arith), ((refl, omega arith), ((refl, omega arith), tt)))

write_all-IsEndOf_example : IsEndOf ([] ++ reported turns empty_log) (write_all turns empty_log)
write_all-IsEndOf_example =
    write_all-IsEndOf [] turns empty_log (refl, (refl, (refl, tt))) ([], refl)
