-- ===== src/Api.antt =====
-- web/src/lib/api.ts: the client of the REST API.
pub mod Json
pub mod Uri
pub mod Session
pub mod Http
pub mod Endpoint
pub mod Types
pub mod Accounts
pub mod Servers
pub mod Files
pub mod Backups
pub mod Catalog
pub mod Network
pub mod Themes
