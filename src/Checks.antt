-- ===== src/Checks.antt =====
-- The checks of the web panel's build: web/src/themes/contrast.test.mjs and
-- web/scripts/check-color-literals.mjs.
pub mod Contrast
pub mod Tokens
pub mod Literals
