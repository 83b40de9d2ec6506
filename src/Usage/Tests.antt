-- ===== src/Usage/Tests.antt =====
-- A counter that restarts, and the window of a week.
use cash_pilot_desktop.Base.{◌≡◌, refl}
use cash_pilot_desktop.Usage.{counter_delta}

restarted : counter_delta 150 30 ≡ 30
unfolding counter_delta
restarted = refl
