-- ===== src/Base/Evaluate.antt =====
-- One name that opens the text and map functions, for tests on concrete inputs.
use cash_pilot_desktop.Base.Strings.{
  text_eq, text_lt, has_prefix, trim_prefix, is_space, drop_while, trim_space, trim_right, to_lower,
  to_upper, equal_fold, fields, cons_head, split, join,
}
use cash_pilot_desktop.Base.Maps.{lookup, insert, delete}
use cash_pilot_desktop.Base.Sorting.{sort}
use cash_pilot_desktop.Base.Integers.{atoi, itoa}

unfoldable pub texts : Unit {0}
unfolding text_eq text_lt has_prefix trim_prefix is_space drop_while trim_space trim_right to_lower
    to_upper equal_fold fields cons_head split join lookup insert delete sort atoi itoa
texts = tt
