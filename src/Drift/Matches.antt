-- ===== src/Drift/Matches.antt =====
-- About ShapeDrift of internal/runtime/container_drift.go: the containers in which no drift is found.
use cash_pilot_desktop.Drift.Judge.{Drift}
