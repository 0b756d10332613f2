-- ===== src/Docs.antt =====
-- web/scripts/docs-site.mjs: the generator of the documentation site.
pub mod Slug
pub mod Escape
pub mod Links
pub mod Scan
pub mod Html
pub mod Grid
pub mod Check
