-- ===== src/Web.antt =====
-- internal/web: the parts of the web dashboard that decide who may do what.
pub mod Auth
pub mod Actions
pub mod Trust
