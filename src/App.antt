-- ===== src/App.antt =====
-- The shell of web/src/app.jsx: the routes, the preferences and the sign-in gate.
pub mod Route
pub mod Prefs
pub mod Look
pub mod SignIn
