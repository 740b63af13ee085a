-- ===== src/Tests/CodeView.antt =====
-- The view of a file at concrete sessions.
use orchis_foundry.Prelude.{
  ◌⊎◌, ◌++◌, true, false, ◌&&◌, Option, some, List, [], ◌∷◌, ◌≡◌, ◌≢◌, refl, Str, codes, All,
}
use orchis_foundry.Repo.Code.{
  pick_new, type_branch, commit_note, BlameLine, CodeView, get_blob, post_commit, Committed, Event,
  show_path, got_blob, toggle_blame, toggle_outline, start_edit, commit, got_blame, committed,
  open_path, run,
}
use orchis_foundry.Repo.Code.Commits.{IsAllowed, IsEditor, run-IsAllowed, Confirms, run-confirmed}

code_view : Unit {0}
unfolding run open_path
code_view = tt

abbrev main : Str
main = codes "main"

abbrev opened : CodeView
opened = (open_path (codes "a.rs")).0

abbrev editing : CodeView
editing = (run true main opened (got_blob 1 (some (codes "x")) ∷ start_edit ∷ [])).0

abbrev made : Committed
made = record { sha = codes "0aa9ee4c"; branch = codes "topic" }

abbrev to_topic : List Event
to_topic = pick_new true ∷ type_branch (codes "topic") ∷ commit ∷ committed true (some made) ∷ []

confirmed : (run true main editing to_topic).0.note ≡ commit_note made
unfolding code_view
confirmed = refl

run-confirmed_example :
    (editing.note ≡ commit_note made)
    ⊎ ((before : List Event) × (e : Event) × (after : List Event) × (to_topic ≡ before ++ e ∷ after)
        × Confirms made e)
run-confirmed_example = run-confirmed true main to_topic editing made confirmed

abbrev taken : Option Committed
taken = some (record { sha = codes "0aa9ee4c"; branch = main })

-- The note of a commit to the default branch is gone when the file is read again.
not_seen : (run true main editing (commit ∷ committed false taken ∷ [])).0.note ≡ []
unfolding code_view
not_seen = refl

abbrev session : List Event
session = got_blob 1 (some (codes "x")) ∷ start_edit ∷ commit ∷ committed false taken ∷ []

opened_closed : IsEditor true main opened
opened_closed e = refl

main_named : main ≢ []
main_named e = cc e

run-IsAllowed_example : All (IsAllowed true main) (run true main opened session).1
run-IsAllowed_example = run-IsAllowed true main session opened main_named opened_closed

requests_made :
    (run true main opened session).1
    ≡ post_commit main (codes "Update a.rs") (codes "a.rs") (codes "x")
      ∷ get_blob (codes "a.rs")
      ∷ []
unfolding code_view
requests_made = refl

abbrev panels : List Event
panels = got_blob 1 (some (codes "x")) ∷ toggle_blame ∷ toggle_outline ∷ []

both_hidden : (opened.show_blame && opened.show_outline) ≡ false
unfolding code_view
both_hidden = refl

abbrev blame_of_a : List BlameLine
blame_of_a =
    record { line = 1; sha = codes "8c1bba0"; author = codes "Jana"; summary = codes "a" } ∷ []

-- The blame of a file that has been left becomes that of the file which is shown.
late_blame :
    (run true main opened (
      got_blob 1 (some (codes "x"))
      ∷ toggle_blame
      ∷ show_path (codes "b.rs")
      ∷ got_blame (some blame_of_a)
      ∷ [])).0.blame
    ≡ some blame_of_a
unfolding code_view
late_blame = refl
