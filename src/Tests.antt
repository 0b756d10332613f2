-- ===== src/Tests.antt =====
-- The development at concrete inputs: what the definitions compute, and each theorem with hypotheses
-- where these hold.
mod App
mod Console
mod Creations
mod Data
mod Docs
mod FileManager
mod Servers
mod Session
mod Themes
mod Urls
mod Pages
mod Properties
mod Catalog
mod Accounts
mod Backups
mod Site
mod Network
mod Views
mod Checks
mod Running
