-- ===== src/Repo.antt =====
-- The repository view of web/src/views/repo.jsx: the file tree, the pins and stars, the chat, and
-- the view of a file.
pub mod Tree
pub mod Pins
pub mod Chat
pub mod Code
pub mod Lines
pub mod Settings
pub mod Proposals
pub mod Issues
pub mod Releases
pub mod View
pub mod Readme
