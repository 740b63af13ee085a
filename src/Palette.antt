-- ===== src/Palette.antt =====
-- The command palette, web/src/palette.jsx.
pub mod Actions
pub mod Groups
pub mod Keys
