-- ===== src/Review.antt =====
-- The pull request view of web/src/views/pr.jsx, and the list of pull requests.
pub mod Diff
pub mod State
pub mod Page
pub mod Listing
