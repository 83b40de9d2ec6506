-- ===== src/NativeLog.antt =====
-- rotatingLogWriter, readLogTail and lastLines of internal/runtime/native.go: the log of a native
-- process, in one file and the one before it. A file is its bytes, or none where it does not exist;
-- what the operating system answers to the calls of one write is given, and a write may stop early.
-- The sizes are those of files, so that their sum stays far below the bound of an int64.
pub mod Held
pub mod Stream
mod Tests
use cash_pilot_desktop.Base.{
  ℕ, ◌+◌, ◌-◌, ℤ, pos_part, is_positive, Bool, true, false, ◌&&◌, ◌||◌, not, Option, none, some,
  List, [], ◌∷◌, ◌++◌, Text, codes, is_empty, or_else, length, take, drop, ltb, leb, ◌==◌,
  if◌then◌else◌, trim_right, split, join,
}

-- What the operating system answers during one write, and how many bytes it takes.
pub record Answers : Type 0 where
  pub dir_made : Bool
  pub opened : Bool
  pub stated : Bool
  pub renamed : Bool
  pub reopened : Bool
  pub taken : ℕ

pub record Log : Type 0 where
  pub cap : ℤ
  pub is_open : Bool
  pub size : ℕ
  pub closed : Bool
  pub current : Option Text
  pub rotated : Option Text

-- The count and whether there is no error.
pub record Wrote : Type 0 where
  pub count : ℕ
  pub is_ok : Bool

abbrev pub contents : Option Text → Text
contents file = or_else file []

abbrev pub new_log : ℤ → Option Text → Option Text → Log
new_log cap current rotated = record {
  cap = cap;
  is_open = false;
  size = 0;
  closed = false;
  current = current;
  rotated = rotated;
}

-- The current file, created where it is missing.
abbrev pub opened_file : Answers → Log → Log
opened_file os w = record w {
  is_open = true;
  current = some (contents w.current);
  size = if os.stated then length (contents w.current) else w.size;
}

unfoldable pub open_current : Answers → Log → Option Log
open_current os w =
    if w.is_open then some w else if os.dir_made && os.opened then some (opened_file os w) else none

abbrev pub is_over : Text → Log → Bool
is_over p w = is_positive w.cap && ltb (pos_part w.cap) (w.size + length p)

-- The current file takes the place of the rotated one, and is emptied.
unfoldable pub rotate : Answers → Log → Log
rotate os w =
    let moved = if os.renamed then none else w.current in
    let kept = if os.renamed then w.current else w.rotated in
    if os.reopened
    then record w { is_open = true; size = 0; current = some []; rotated = kept }
    else record w { is_open = false; current = moved; rotated = kept }

unfoldable pub append : Answers → Text → Log → Log × Wrote
append os p w =
    let part = take os.taken p in
    (
      record w { size = w.size + length part; current = some (contents w.current ++ part) },
      record { count = length part; is_ok = length part == length p },
    )

abbrev pub failed : Wrote
failed = record { count = 0; is_ok = false }

unfoldable pub write_open : Answers → Text → Log → Log × Wrote
write_open os p w =
    if is_over p w
    then if os.reopened then append os p (rotate os w) else (rotate os w, failed)
    else append os p w

abbrev pub write_opened : Answers → Text → Log → Option Log → Log × Wrote
write_opened os p w none = (w, failed)
write_opened os p w (some o) = write_open os p o

unfoldable pub write : Answers → Text → Log → Log × Wrote
write os p w = if w.closed then (w, failed) else write_opened os p w (open_current os w)

-- `rotatingLogWriter.Close`
unfoldable pub close : Log → Log
close w = record w { closed = true; is_open = false }

-- The end of a file, where it is longer than the limit.
abbrev pub file_tail : ℕ → Text → Text
file_tail limit s = drop (length s - limit) s

unfoldable pub last_lines : Text → ℕ → Text
last_lines s n =
    let parts = split b'\n' (trim_right b'\n' s) in
    if is_empty s || n == 0 then [] else join b'\n' (drop (length parts - n) parts)

unfoldable pub read_log_tail : ℕ → Log → ℤ → Text
read_log_tail limit w lines =
    last_lines (file_tail limit (contents w.rotated) ++ file_tail limit (contents w.current))
      (if is_positive lines then pos_part lines else 200)

-- Opens the definitions of this module.
unfoldable pub native_log_defs : Unit {0}
unfolding open_current rotate append write_open write close last_lines read_log_tail
native_log_defs = tt
