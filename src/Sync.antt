-- ===== src/Sync.antt =====
-- internal/sync: the synchronisations. Title has those of internal/sync/title, and Rule that of
-- internal/sync/rule.
pub mod Title
pub mod Rule
