-- ===== src/Tests/Pages.antt =====
-- The pages of a commit and of a user, and the README, at concrete events.
use orchis_foundry.Prelude.{true, false, some, List, [], ◌∷◌, ◌≡◌, refl, Str, codes, session}
use orchis_foundry.Api.{done, failed}
use orchis_foundry.Pages.{Event, show, got, same_commit, no_commit, drawn, mounted, step}
use orchis_foundry.Repo.Readme

pages : Unit {0}
unfolding session step Readme.step
pages = tt

abbrev commit_events : List (Event (Str × Str) Str)
commit_events =
    show (codes "me/a", codes "2f") ∷ got (done (codes "fix")) ∷ got (failed (codes "404")) ∷ []

-- The late error of the commit before stands above the commit that is shown.
both_drawn :
    drawn
      (session
        (step same_commit no_commit)
        (mounted same_commit no_commit (codes "me/a", codes "1e")).0
        commit_events).0
    ≡ record { not_found = true; loading = false; content = some (codes "fix") }
unfolding pages
both_drawn = refl

-- The README of the repository before is drawn until that of the new one has come.
old_readme :
    (session Readme.step
      (Readme.mounted (codes "me/a")).0
      (Readme.got_readme 0 (done (some (codes "A"))) ∷ Readme.show (codes "me/b") ∷ [])).0.md
    ≡ some (codes "A")
unfolding pages
old_readme = refl
