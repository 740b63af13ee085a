-- ===== src/Tests/Tracker.antt =====
-- The issues, the releases and the scanner at concrete events.
use orchis_foundry.Prelude.{
  true, false, none, some, List, [], ◌∷◌, ◌≡◌, ◌≢◌, ◌⊎◌, inl, refl, In, All, codes, session,
}
use orchis_foundry.Api.{done, failed}
use orchis_foundry.Repo.Issues
use orchis_foundry.Repo.Issues.Asked.{IsAsked, step-IsAsked}
use orchis_foundry.Repo.Releases
use orchis_foundry.Settings.Scanner
use orchis_foundry.Settings.Scanner.Sent.{key_here, session-key}

tracker : Unit {0}
unfolding session Issues.step Releases.step Scanner.step
tracker = tt

abbrev issue : Issues.Issue
issue = record { number = 4; title = codes "crash"; closed = false }

abbrev listed : Issues.Issues
listed = record (Issues.new_issues (codes "me/a")) { items = some (issue ∷ []) }

abbrev detail : Issues.Detail
detail = record {
  mount = 0;
  num = 4;
  issue = some issue;
  comments = [];
  draft = codes " same here ";
  busy = false;
}

abbrev shown : Issues.Issues
shown = record listed { detail = some detail; mounts = 1 }

commented :
    (Issues.step shown Issues.comment).1
    ≡ Issues.post_comment 0 (codes "me/a") 4 (codes "same here") ∷ []
unfolding tracker
commented = refl

step-IsAsked_example : All (IsAsked shown) (Issues.step shown Issues.comment).1
step-IsAsked_example = step-IsAsked shown Issues.comment

-- Text that is typed while a comment is posted is lost with its answer.
lost_draft :
    (session Issues.step shown (
      Issues.comment
      ∷ Issues.type_draft (codes "and another thing")
      ∷ Issues.commented 0 (codes "me/a") 4 true
      ∷ [])).0.detail
    ≡ some (record detail { draft = [] })
unfolding tracker
lost_draft = refl

-- An issue that cannot be loaded leaves no way back to the list.
no_way_back :
    (session Issues.step listed
      (Issues.select 4 ∷ Issues.got_issue 0 (failed (codes "404")) ∷ Issues.back ∷ [])).0.detail
    ≡ some (record detail { issue = none; draft = [] })
unfolding tracker
no_way_back = refl

abbrev release_events : List Releases.Event
release_events =
    Releases.draft ∷ Releases.type_tag (codes " v1 ") ∷ Releases.publish ∷ Releases.publish ∷ []

published :
    (session (Releases.step true) Releases.new_releases release_events).1
    ≡ Releases.post_release (codes "v1") [] [] false ∷ []
unfolding tracker
published = refl

abbrev scanner_events : List Scanner.Event
scanner_events =
    Scanner.loaded (done Scanner.default_config)
    ∷ Scanner.edit (Scanner.api_key (codes "k"))
    ∷ Scanner.edit (Scanner.context_budget (codes "000"))
    ∷ Scanner.save
    ∷ []

abbrev sent : Scanner.Body
sent = record {
  enabled = false;
  provider = codes "anthropic";
  base_url = [];
  model = [];
  context_budget = Scanner.given 8000;
  max_output_tokens = Scanner.given 2048;
  prune_globs = [];
  api_key = some (codes "k");
}

sent_once : (session Scanner.step Scanner.new_scanner scanner_events).1 ≡ sent ∷ []
unfolding tracker
sent_once = refl

sent-In : In sent (session Scanner.step Scanner.new_scanner scanner_events).1
unfolding tracker
sent-In = inl refl

key_not_empty : codes "k" ≢ []
key_not_empty e = cc e

session-key_example :
    (key_here Scanner.new_scanner ≡ codes "k")
    ⊎ In (Scanner.edit (Scanner.api_key (codes "k"))) scanner_events
session-key_example =
    session-key scanner_events Scanner.new_scanner sent (codes "k") sent-In refl key_not_empty
