-- ===== src/Markdown.antt =====
-- The Markdown renderer of web/src/views/repo.jsx (`parseMd`, `escapeHtml`, `inlineMd`), whose
-- output reaches the page through `dangerouslySetInnerHTML`.
pub mod Replace
pub mod Inline
pub mod Blocks
