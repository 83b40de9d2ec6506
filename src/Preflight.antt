-- ===== src/Preflight.antt =====
-- internal/preflight: the architecture rules of arch.go in Target, the assessment of preflight.go in
-- Assess, and what holds of them.
pub mod Target
pub mod Agreement
pub mod Assess
pub mod Verdicts
pub mod Fleet
mod Tests
