-- ===== src/Pages.antt =====
-- The other pages of the panel, and the components around them: web/src/pages and
-- web/src/components.
pub mod Ui
pub mod Run
pub mod OneAction
pub mod Report
pub mod Layout
pub mod Settings
pub mod Properties
pub mod Search
pub mod Flight
pub mod Catalog
pub mod Modpacks
pub mod Backups
pub mod Connect
pub mod Options
pub mod Bots
pub mod Login
pub mod Admin
pub mod LinkedAccounts
