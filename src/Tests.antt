-- ===== src/Tests.antt =====
-- Runs of the model at concrete inputs, and the theorems at inputs that meet their hypotheses.
mod Markdown
mod Code
mod Palette
mod Review
mod Search
mod App
mod Repo
mod CodeView
mod Tweaks
mod Settings
mod RepoForms
mod Panels
mod NewPull
mod Sidebar
mod Shell
mod Tracker
mod RepoView
mod Chrome
mod Pages
