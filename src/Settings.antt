-- ===== src/Settings.antt =====
-- The developer settings and the admin panel of web/src/views/devsettings.jsx. Every panel is a state and
-- `step`, one event: a click, a key, or the answer to a request, as `Api` gives it to the handler, with
-- the requests that are made. `window.OrchisAPI` is always there (data.jsx).
pub mod Tokens
pub mod Hooks
pub mod Keys
pub mod Account
pub mod Security
pub mod Preferences
pub mod Admin
pub mod View
pub mod Scanner
