-- ===== src/Tests/Review.antt =====
-- The pull request view at concrete sessions.
use orchis_foundry.Prelude.{
  ◌+◌, ◌≤◌, true, false, Option, none, some, List, [], ◌∷◌, ◌≡◌, ◌⊎◌, inl, refl, arith, Str, codes,
  All, In,
}
use orchis_foundry.Prelude.Int.{pos}
use orchis_foundry.Review.Diff.{DiffLine, left, right, Staged, anchor_for, parse_int, staged_here}
use orchis_foundry.Review.State.{
  Page, page_of, Event, answered, merge_click, submit_review, stage_line, run_job, summarize,
  merged, reviewed, got_scanner,
}
use orchis_foundry.Review.Page.{run}
use orchis_foundry.Review.Page.Lost.{sent, held, IsCalmRun, held-Posted}
use orchis_foundry.Review.Page.Merges.{merges, merge_answers, merge_waits, run-merges}
use orchis_foundry.Review.Page.Bodies.{IsWritten, IsWorded, run-IsWritten}
use orchis_foundry.Review.Listing
use orchis_foundry.Review.Listing.{PullRow, yours, pick, listed, new_listing, list_run}

review : Unit {0}
unfolding run parse_int staged_here
review = tt

abbrev base : Option Str
base = some (codes "/v1/repos/kelp/atlas/pulls/842")

abbrev page : Page
page = page_of (record {
  id = 842;
  repo = codes "kelp/atlas";
  title = codes "router";
  status = codes "open";
  additions = 3;
  deletions = 1;
  description = none;
})

abbrev added : DiffLine
added = record { kind = codes "add"; old_num = codes " "; new_num = codes " 15"; text = codes "x" }

abbrev deleted : DiffLine
deleted = record { kind = codes "del"; old_num = codes "15"; new_num = codes " "; text = codes "y" }

anchors :
    (anchor_for added ≡ some (record { line = pos 15; side = right }))
    × (anchor_for deleted ≡ some (record { line = pos 15; side = left }))
    × (anchor_for (record added { kind = codes "del" }) ≡ none)
unfolding review
anchors = (refl, refl, refl)

abbrev note : Staged
note = record { path = codes "a.rs"; line = pos 15; side = right; body = codes "why?" }

abbrev staging : Event
staging = stage_line (codes "a.rs") added (codes " why? ")

-- The comment is dropped with its review, which the server has not taken.
failed_review :
    (run base page (staging ∷ submit_review ∷ answered (reviewed false) ∷ [])).0.pending ≡ []
unfolding review
failed_review = refl

-- A comment that is staged while a review is under way is neither pending nor posted.
staged_meanwhile :
    ((run base page (staging ∷ submit_review ∷ staging ∷ answered (reviewed true) ∷ [])).0.pending
      ≡ [])
    × (sent (run base page (staging ∷ submit_review ∷ staging ∷ answered (reviewed true) ∷ [])).1
        ≡ note ∷ [])
unfolding review
staged_meanwhile = (refl, refl)

abbrev session : List Event
session = staging ∷ submit_review ∷ answered (reviewed true) ∷ []

session-IsCalmRun : IsCalmRun base 0 page session
unfolding review
session-IsCalmRun = (refl, (tt, (omega arith, tt)))

note-held : In note (held base page session)
unfolding review
note-held = inl refl

held-Posted_example :
    In note (run base page session).0.pending ⊎ In note (sent (run base page session).1)
held-Posted_example = held-Posted base page session note session-IsCalmRun note-held

abbrev clicks : List Event
clicks = merge_click ∷ merge_click ∷ answered (merged false) ∷ merge_click ∷ []

run-merges_example :
    merges (run base page clicks).1 + merge_waits page
    ≤ merge_answers clicks + merge_waits (run base page clicks).0
run-merges_example = run-merges base clicks page

abbrev jobs_run : List Event
jobs_run =
    answered (got_scanner (some (record { has_key = true; base_url = [] })))
    ∷ run_job summarize
    ∷ run_job summarize
    ∷ []

run-IsWritten_example :
    All IsWritten (run base page session).0.pending × All IsWorded (run base page session).1
run-IsWritten_example = run-IsWritten base session page tt

abbrev mine : List PullRow
mine = record { repo = codes "kelp/atlas"; id = 842; title = codes "router" } ∷ []

-- The answer for the first filter comes after that for the second, and is what is shown.
late_list :
    (list_run new_listing
      (Listing.mounted ∷ pick yours ∷ listed (some mine) ∷ listed (some []) ∷ [])).0
    ≡ record { filter = yours; pulls = some [] }
unfolding list_run
late_list = refl
