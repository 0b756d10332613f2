-- ===== src/Theme.antt =====
-- The themes of the panel: web/src/themes/index.ts, web/src/lib/theme.ts, the script in
-- web/index.html, and web/src/ThemeProvider.tsx.
pub mod Registry
pub mod Apply
pub mod Prerender
pub mod Provider
