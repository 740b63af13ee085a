-- ===== src/Search.antt =====
-- The code search of web/src/views/search.jsx.
pub mod Highlight
pub mod Session
