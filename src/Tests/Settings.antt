-- ===== src/Tests/Settings.antt =====
-- The panels of the settings at concrete sessions.
use orchis_foundry.Prelude.{
  Bool, true, false, none, some, List, [], ◌∷◌, ◌++◌, ◌≡◌, ◌↔◌, ◌⊎◌, refl, All, Lacks, arith, Str,
  codes, ◌==◌, session,
}
use orchis_foundry.Api.{
  done, failed, Response, answer, ok, status_text, is_zero, get, patch, post, del, caught,
  load_repos, unreachable,
}
use orchis_foundry.Api.Errors.{calls_lem}
use orchis_foundry.Settings.Tokens.{
  Event, Generated, new_tokens, new_clicked, type_name, toggle, submit, created, saved, step,
  unless_shown, panel_step, submit_form, toggle_scope, selected, post_token,
}
use orchis_foundry.Settings.Tokens.Shown.{Brings, IsQuiet, session-shown}
use orchis_foundry.Settings.Tokens.Posts.{IsTokenPost, session-IsTokenPost}
use orchis_foundry.Settings.Admin
use orchis_foundry.Settings.Admin.Accounts.{path_of, step-refused}

abbrev made : Generated
made = record { name = codes "ci"; value = codes "orc_1" }

tokens : Unit {0}
unfolding session step unless_shown panel_step submit_form toggle_scope selected
tokens = tt

abbrev token_events : List Event
token_events =
    new_clicked
    ∷ type_name (codes " ci ")
    ∷ toggle (codes "repo:write")
    ∷ submit
    ∷ created 0 (done made)
    ∷ []

-- What the form asks for.
token_posted :
    (session step new_tokens token_events).1
    ≡ post_token 0 (codes "ci") (codes "repo:read" ∷ codes "repo:write" ∷ []) 90 ∷ []
unfolding tokens
token_posted = refl

-- The secret is there until it is said to be saved.
token_saved : (session step new_tokens (token_events ++ saved ∷ [])).0.generated ≡ none
unfolding tokens
token_saved = refl

token_shown : (session step new_tokens token_events).0.generated ≡ some made
unfolding tokens
token_shown = refl

session-shown_example :
    ((new_tokens.generated ≡ some made) × All IsQuiet token_events)
    ⊎ ((before : List Event) × (e : Event) × (after : List Event) × (token_events
          ≡ before ++ e ∷ after)
        × Brings made e
        × All IsQuiet after)
session-shown_example = session-shown token_events new_tokens made token_shown

sound_tokens_example : All IsTokenPost (session step new_tokens token_events).1
sound_tokens_example = session-IsTokenPost token_events new_tokens refl

abbrev refused_answer : Response Bool
refused_answer = record { status = 403; content_length = none; body = failed (codes "no JSON") }

step-refused_example :
    ((Admin.step Admin.new_users
        (Admin.acted (caught (patch (path_of (codes "u1")) (answer refused_answer))))).0.err
      ≡ codes "Action failed (" ++ status_text 403 ++ codes ").")
    × ((Admin.step Admin.new_users
          (Admin.acted (caught (del (path_of (codes "u1")) (answer refused_answer))))).0.err
        ≡ codes "Action failed (" ++ status_text 403 ++ codes ").")
step-refused_example = step-refused Admin.new_users (codes "u1") refused_answer refl lacks
  where
    lacks : Lacks 62 (codes "u1")
    lacks = ground arith

abbrev created_answer : Response Str
created_answer = record { status = 201; content_length = none; body = done (codes "{}") }

calls_lem_example :
    ((a : Str)
      → ((get (codes "/v1/repos") (answer created_answer) ≡ done a)
          ↔ ((ok 201 ≡ true) × (done (codes "{}") ≡ done a))))
    × ((a : Str)
        → ((post (codes "/v1/repos") (answer created_answer) ≡ done (some a)) ↔ (
            (ok 201 ≡ true)
            × ((201 == 204) ≡ false)
            × (is_zero none ≡ false)
            × (done (codes "{}") ≡ done a))))
    × ((post (codes "/v1/repos") (answer created_answer) ≡ done none)
        ↔ ((ok 201 ≡ true) × (((201 == 204) ≡ true) ⊎ (is_zero none ≡ true))))
    × ((del (codes "/v1/repos") (answer created_answer) ≡ done true) ↔ (ok 201 ≡ true))
calls_lem_example = calls_lem (codes "/v1/repos") created_answer

-- Without a server the repositories stay those that are there.
offline : (load_repos (codes "a" ∷ []) (unreachable (codes "offline"))).0 ≡ codes "a" ∷ []
unfolding load_repos get
offline = refl
