-- ===== src/Usage/Windows.antt =====
-- About Since of internal/usage/usage.go.
