-- ===== src/Tests/Panels.antt =====
-- The panels of webhooks, of the account and of the sessions at concrete events.
use orchis_foundry.Prelude.{
  true, false, some, List, [], ◌∷◌, ◌≡◌, ◌≢◌, refl, All, Str, codes, session,
}
use orchis_foundry.Api.{done}
use orchis_foundry.Settings.Hooks
use orchis_foundry.Settings.Hooks.Posts
use orchis_foundry.Settings.Account
use orchis_foundry.Settings.Security
use orchis_foundry.Settings.Security.Others

panels : Unit {0}
unfolding session Hooks.step Hooks.add_hook Hooks.toggle_event Account.step
panels = tt

abbrev owned : List Str
owned = codes "me/a" ∷ []

abbrev hook_events : List Hooks.Event
hook_events =
    Hooks.new_clicked
    ∷ Hooks.type_url (codes "http://x ")
    ∷ Hooks.toggle (codes "issue")
    ∷ Hooks.add
    ∷ []

hook_posted :
    (session Hooks.step (Hooks.new_hooks owned) hook_events).1
    ≡ Hooks.post_hook (codes "me/a") (codes "http://x") (codes "push" ∷ codes "issue" ∷ []) [] ∷ []
unfolding panels
hook_posted = refl

sound_hooks_example :
    All Posts.IsHookPost (session Hooks.step (Hooks.new_hooks owned) hook_events).1
    × ((session Hooks.step (Hooks.new_hooks owned) hook_events).0.err ≢ Hooks.no_repo)
sound_hooks_example = Posts.session-IsHookPost owned hook_events

abbrev hook : Str → Hooks.Hook
hook i = record { id = i; url = []; events = []; repo = codes "me/a"; status = codes "ok" }

-- The mark of a second test is taken away by the timer of the first.
early_timer :
    (session Hooks.step (Hooks.new_hooks owned) (
      Hooks.test (hook (codes "1"))
      ∷ Hooks.test_answered (codes "1") true
      ∷ Hooks.test (hook (codes "2"))
      ∷ Hooks.test_answered (codes "2") true
      ∷ Hooks.timer
      ∷ [])).0.tested
    ≡ []
unfolding panels
early_timer = refl

abbrev profile : Str → Account.Profile
profile n = record { name = n; bio = []; initials = codes "M"; avatar_url = [] }

abbrev account_events : List Account.Event
account_events =
    Account.loaded (done (profile (codes "Mira")))
    ∷ Account.save
    ∷ Account.type_name (codes "Mir")
    ∷ Account.saved_answer (done (profile (codes "Mira")))
    ∷ []

-- A name that is typed while the one before it is saved counts as saved.
saved_too_early :
    ((session Account.step (Account.new_account (profile [])) account_events).0.saved ≡ true)
    × ((session Account.step (Account.new_account (profile [])) account_events).0.name
        ≡ codes "Mir")
    × ((session Account.step (Account.new_account (profile [])) account_events).0.me
        ≡ some (profile (codes "Mira")))
unfolding panels
saved_too_early = (refl, refl, refl)

abbrev other_session : Security.BrowserSession
other_session = record { id = codes "s2"; is_current = false }

abbrev two_sessions : Security.Security
two_sessions = record {
  sessions = some (record { id = codes "s1"; is_current = true } ∷ other_session ∷ []);
  busy = false;
}

sessions_example :
    All
      (Others.IsForOther two_sessions)
      (Security.step two_sessions (Security.revoke other_session)).1
sessions_example = Others.step-IsForOther two_sessions (Security.revoke other_session)
