-- ===== src/Code.antt =====
-- The code view of web/src/views/repo.jsx: `highlightRust`, which colours a line of any file.
pub mod Lexer
