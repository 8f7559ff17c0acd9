-- ===== src/Core/Versions/Rollback.antt =====
-- The way back from an update of src/pkg/core/version_manager.go, until it is confirmed.
