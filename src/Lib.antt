-- ===== src/Lib.antt =====
-- Orchis Foundry: the web client (web/src). It is one React application without a build-time module
-- system: the views share the functions and constants of the other files.
--
-- Parts and files
--   Markdown.Replace, Markdown.Inline, Markdown.Blocks: escapeHtml, inlineMd and parseMd of
--     web/src/views/repo.jsx, which render READMEs, comments and the texts of the AI assistant.
--     `escape_html`, `inline_md` and `parse_md` are these functions; `code_span`, `bold_span` and
--     `link_span` are the three patterns of inlineMd; `replace_all` is `replace` with the flag g.
--   Code.Lexer: highlightRust of web/src/views/repo.jsx. `scan_round` is one match of its pattern.
--   Palette.Actions, Palette.Groups, Palette.Keys: web/src/palette.jsx. `filtered`, `groups` and
--     `static_actions` are the memoised values of these names; `step` is one event at the palette.
--   Review.Diff: anchorFor and the comments that FileDiff and Conversation show, of
--     web/src/views/pr.jsx. `anchor_for`, `inline_comments`, `staged_here` and `top_level` are the code's.
--   Review.State, Review.Page: the state and the handlers of PRView, with those of FileDiff and
--     NewCommentBox. `step` is one event: doMerge, doReview, postComment, requestReview, runAI and
--     applyDraft are each an event for the part before the await and an `answer` for the part behind it.
--   Review.Listing: PRsView of web/src/views/pr.jsx.
--   Search.Highlight, Search.Session: highlight and the state of SearchView of web/src/views/search.jsx.
--     `effect` is the effect on the query, the language and the repository; `repo_groups` is `groups`.
--   Repo.Tree, Repo.Pins, Repo.Chat, Repo.Code: FileTree, the pins and stars of RepoView, ChatDock and
--     CodeView, of web/src/views/repo.jsx.
--   Tweaks.Panel: the place of TweaksPanel and the clamp of TweakNumber, of web/tweaks-panel.jsx, in whole
--     pixels.
--   Tweaks.Radio: TweakRadio of web/tweaks-panel.jsx. `digits` has as much fuel as the number is large,
--     and one more.
--   Tweaks.Colours: __twkIsLight of web/tweaks-panel.jsx; a number is the 32 bits that its shifts read.
--   App.Look: the effects of App in web/src/app.jsx that bring the preferences to the document.
--   Nav: OrchisNav of web/src/orchis-nav.jsx.
--   Repo.Lines: CodeBlock, BlameBlock and fmtBytes of web/src/views/repo.jsx.
--   Pages: CommitView of web/src/views/commit.jsx and UserProfileView of web/src/views/user.jsx.
--   Repo.Readme: ReadmeView of web/src/views/repo.jsx, with the Markdown renderer behind it.
--   App.Prefs: the theme and the tweaks of web/src/app.jsx, with useTweaks of web/tweaks-panel.jsx.
--   App.SignIn: Root and SignIn of web/src/app.jsx. `root` is the first request and what follows it.
--   App.Route: the route objects and the ladder of views of web/src/app.jsx.
--   Api: OrchisAPI, loadRepos and errMsg. `get`, `post`, `patch`, `put` and `del` are the calls of
--     web/src/data.jsx behind their `fetch`; their `Result` is what the handlers of the views await.
--   Settings.View, Settings.Tokens, Settings.Hooks, Settings.Keys, Settings.Account, Settings.Security,
--     Settings.Preferences, Settings.Scanner, Settings.Admin: the panels of web/src/views/devsettings.jsx,
--     a module each.
--   NewPull: NewPRView of web/src/views/newpr.jsx. `compare_effect` is the effect that compares, with a
--     number for its request in place of the flag `cancelled`.
--   Repo.Settings, Repo.Proposals, Repo.Releases: RepoSettingsModal, ProposalsView and ReleasesView of
--     web/src/views/repo.jsx.
--   Repo.View: RepoView and RepoMainPanel of web/src/views/repo.jsx: the tree and the pins together. A number
--     for the request of the tree stands for the flag `cancelled`.
--   Repo.Issues: IssuesSplit and IssueDetail of web/src/views/repo.jsx; a number tells the detail of an issue
--     from those that were open before.
--   Sidebar: Sidebar and NotificationsBell of web/src/sidebar.jsx.
--   Dashboard: DashboardView and NewRepoModal of web/src/views/dashboard.jsx.
--   Shell: App of web/src/app.jsx, with the dashboard and the settings as they are kept from route to route:
--     it is where the palette, the routes and these views meet.
--   Prelude.Machine: sessions of a component, with the invariants and the counts of what is under way
--     that the components share.
--   Tests: the definitions at concrete inputs.
--
-- Conventions
--   A text is the list of its units; the native numbers stand for the units. `toLowerCase` is a
--   parameter of the palette and of the search. Loops over a text or over lines take fuel: as many rounds as there are
--   units or lines, which is enough since each round takes one at least. An index that may be -1 is an integer, and
--   so is what parseInt gives. A write to
--   the browser's storage comes with whether it is taken. A session is a list of events; the answers of the server are events too, in
--   any order.
--
-- Not modelled
--   The layout and the styles of the views, React itself (web/vendor), the generated bundle
--   (web/app.bundle.js), and the server (internal, cmd).
pub mod Prelude
pub mod Api
pub mod Markdown
pub mod Code
pub mod Palette
pub mod Review
pub mod NewPull
pub mod Search
pub mod Repo
pub mod Tweaks
pub mod Settings
pub mod Sidebar
pub mod Dashboard
pub mod Shell
pub mod App
pub mod Nav
pub mod Pages
pub mod Tests
