-- ===== src/App/SignIn.antt =====
-- The sign-in gate of web/src/app.jsx: `Root`, which asks who is signed in, and the form of `SignIn`. An
-- answer that is `none` is a request that failed.
pub mod Gate
use orchis_foundry.Prelude.{
  Bool, true, false, not, ◌&&◌, ◌||◌, Option, none, some, List, [], ◌∷◌, ◌++◌, if◌then◌else◌, Str,
  codes, eqs, ◌==◌,
}
use orchis_foundry.Api.{Result, done, failed, Fetched, unreachable, answer, ok}

-- The state of `Root`.
pub data GateState : Type 0 where
  loading authed signin : GateState

pub record User : Type 0 where
  pub id : Str
  pub name : Str
  pub handle : Str
  pub initials : Str
  pub color : Str
  pub avatar_url : Str
  pub bio : Str
  pub is_admin : Bool

-- The answer of /v1/me; a field that is missing or empty is an empty text.
pub record Me : Type 0 where
  pub id : Str
  pub name : Str
  pub handle : Str
  pub initials : Str
  pub color : Str
  pub avatar_url : Str
  pub bio : Str
  pub is_admin : Bool

-- `a || b`.
abbrev or_text : Str → Str → Str
or_text a b = if eqs a [] then b else a

-- `Object.assign(USERS.me, { … })`.
pub hydrate : User → Me → User
unfolding eqs
hydrate u me = record {
  id = or_text me.id (codes "me");
  name = or_text me.name me.handle;
  handle = me.handle;
  initials = or_text me.initials (codes "?");
  color = or_text me.color u.color;
  avatar_url = me.avatar_url;
  bio = me.bio;
  is_admin = me.is_admin;
}

-- The repositories stand for what `loadRepos` puts in `REPOS`.
pub record Root : Type 0 where
  pub state : GateState
  pub user : User
  pub repos : List Str
  waits_repos : Bool

-- The second `then` with the body, which is `none` where it is no user, and the `catch`.
unfoldable me_body : Root → Result (Option Me) → Root
unfolding hydrate
me_body g (done none) = g
me_body g (done (some m)) = record g { user = hydrate g.user m; waits_repos = true }
me_body g (failed e) = record g { state = authed }

-- The first `then`: the status 401 is tested before `ok`, whose failure is thrown.
unfoldable me_answered : Root → Fetched (Option Me) → Root
unfolding me_body
me_answered g (unreachable e) = me_body g (failed e)
me_answered g (answer r) =
    if r.status == 401
    then record g { state = signin }
    else if not (ok r.status)
    then me_body g (failed (codes "me failed"))
    else me_body g r.body

-- The answer to `loadRepos`, which is asked for once the user is known.
unfoldable repos_answered : Root → Option (List Str) → Root
repos_answered g o =
    if g.waits_repos
    then record g {
      state = authed;
      repos = elim o [ none ↦ g.repos | some l ↦ l ];
      waits_repos = false;
    }
    else g

-- `Root` from its first effect on.
unfoldable pub root : User → List Str → Fetched (Option Me) → Option (List Str) → Root
unfolding me_answered repos_answered
root u mock a o =
    repos_answered
      (me_answered (record { state = loading; user = u; repos = mock; waits_repos = false }) a) o

pub record Methods : Type 0 where
  pub local_login : Bool
  pub local_signup : Bool
  pub providers : List Str

-- What is shown before the methods are known and when they cannot be.
abbrev default_methods : Methods
default_methods = record { local_login = true; local_signup = false; providers = [] }

pub data Mode : Type 0 where
  login signup : Mode

pub record SignIn : Type 0 where
  pub methods : Option Methods
  pub mode : Mode
  pub email : Str
  pub name : Str
  pub password : Str
  pub busy : Bool
  pub err : Str

data SignRequest : Type 0 where
  post_login : Str → Str → SignRequest
  post_signup : Str → Str → Str → SignRequest

-- The answer to a form: accepted, or refused with the error of the server, which may be missing, or
-- the message of a request that failed.
data SignEvent : Type 0 where
  got_methods : Option Methods → SignEvent
  type_email type_name type_password : Str → SignEvent
  switch_mode submit accepted : SignEvent
  refused broken : Str → SignEvent

abbrev is_signup : Mode → Bool
is_signup login = false
is_signup signup = true

abbrev methods_or : Option Methods → Methods
methods_or none = default_methods
methods_or (some m) = m

abbrev methods_of : SignIn → Methods
methods_of s = methods_or s.methods

-- `showForm`.
abbrev show_form : SignIn → Bool
show_form s = (methods_of s).local_login || is_signup s.mode && (methods_of s).local_signup

abbrev other_mode : Mode → Mode
other_mode login = signup
other_mode signup = login

abbrev form_request : SignIn → SignRequest
form_request s = elim s.mode [
  | login ↦ post_login s.email s.password
  | signup ↦ post_signup s.email s.name s.password
]

-- The new state, the requests, and whether the page goes to "/".
unfoldable sign_step : SignIn → SignEvent → SignIn × List SignRequest × Bool
unfolding eqs
sign_step s (got_methods o) = (record s { methods = some (methods_or o) }, [], false)
sign_step s (type_email t) = (record s { email = t }, [], false)
sign_step s (type_name t) = (record s { name = t }, [], false)
sign_step s (type_password t) = (record s { password = t }, [], false)
sign_step s switch_mode = (
  if (methods_of s).local_signup then record s { mode = other_mode s.mode; err = [] } else s,
  [],
  false,
)
sign_step s submit =
    (if show_form s && not s.busy
      then (record s { busy = true; err = [] }, form_request s ∷ [], false)
      else (s, [], false))
sign_step s accepted = (s, [], true)
sign_step s (refused e) =
    (record s { err = or_text e (codes "Sign-in failed"); busy = false }, [], false)
sign_step s (broken e) = (record s { err = e; busy = false }, [], false)
