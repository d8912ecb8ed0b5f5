-- ===== src/Admin.antt =====
-- What administrators do to users.
pub mod Restrictions
