-- ===== src/Settings/Admin.antt =====
-- `AdminAuthPanel` and `AdminUsersPanel`: the ways to sign in, and the accounts of the instance.
pub mod Accounts
pub mod Providers
use orchis_foundry.Prelude.{
  Bool, true, false, not, ◌&&◌, ◌||◌, Option, none, some, List, [], ◌∷◌, ◌++◌, if◌then◌else◌, map,
  length, ltb, Str, codes, eqs,
}
use orchis_foundry.Api.{Result, done, failed, err_msg}

pub record Provider : Type 0 where
  pub id : Str
  pub label : Str
  pub enabled : Bool

record Config : Type 0 where
  pub local_login : Bool
  pub local_signup : Bool
  pub providers : List Provider

-- `cfg` is `none` while the settings are loaded.
record Auth : Type 0 where
  pub cfg : Option Config
  pub saved : Bool
  pub err : Str

-- A property of the object of providers.
pub record Entry : Type 0 where
  pub id : Str
  pub enabled : Bool

data AuthRequest : Type 0 where
  put_settings : Bool → Bool → List Entry → AuthRequest

data AuthEvent : Type 0 where
  loaded put_answer : Result Config → AuthEvent
  set_login set_signup : Bool → AuthEvent
  set_provider : Str → Bool → AuthEvent
  save : AuthEvent

abbrev pub with_enabled : Str → Bool → Provider → Provider
with_enabled i v p = if eqs p.id i then record p { enabled = v } else p

-- `setProv`.
abbrev pub set_prov : List Provider → Str → Bool → List Provider
set_prov ps i v = map (with_enabled i v) ps

-- `providers[p.id] = p.enabled`.
pub put_entry : List Entry → Str → Bool → List Entry
unfolding eqs
put_entry [] i v = record { id = i; enabled = v } ∷ []
put_entry (x ∷ xs) i v =
    let rest = put_entry xs i v in if eqs x.id i then record x { enabled = v } ∷ xs else x ∷ rest

-- The object that `save` builds, onto the entries so far.
pub entries : List Entry → List Provider → List Entry
unfolding put_entry
entries xs [] = xs
entries xs (p ∷ ps) = entries (put_entry xs p.id p.enabled) ps

abbrev in_cfg : Auth → Option Config → (Config → Config) → Auth
in_cfg s none f = s
in_cfg s (some c) f = record s { cfg = some (f c); saved = false }

-- The toggles and the button are there once the settings are.
abbrev saved_cfg : Auth → Option Config → Auth × List AuthRequest
saved_cfg s none = (s, [])
saved_cfg s (some c) =
    (record s { err = [] }, put_settings c.local_login c.local_signup (entries [] c.providers) ∷ [])

unfoldable auth_step : Auth → AuthEvent → Auth × List AuthRequest
unfolding entries eqs
auth_step s (loaded (done c)) = (record s { cfg = some c }, [])
auth_step s (loaded (failed e)) = (record s { err = codes "Could not load settings." }, [])
auth_step s (set_login v) = (in_cfg s s.cfg (λ c. record c { local_login = v }), [])
auth_step s (set_signup v) = (in_cfg s s.cfg (λ c. record c { local_signup = v }), [])
auth_step s (set_provider i v) =
    (in_cfg s s.cfg (λ c. record c { providers = set_prov c.providers i v }), [])
auth_step s save = saved_cfg s s.cfg
auth_step s (put_answer (done c)) = (record s { cfg = some c; saved = true }, [])
auth_step s (put_answer (failed e)) = (record s { err = codes "Could not save." }, [])

pub record Account : Type 0 where
  pub id : Str
  pub is_admin : Bool
  pub disabled : Bool

-- The form for a new user.
pub record NewUser : Type 0 where
  pub email : Str
  pub name : Str
  pub password : Str

abbrev no_user : NewUser
no_user = record { email = []; name = []; password = [] }

pub record Users : Type 0 where
  pub users : Option (List Account)
  pub err : Str
  pub creating : Bool
  pub form : NewUser

abbrev pub new_users : Users
new_users = record { users = none; err = []; creating = false; form = no_user }

-- The body of a PATCH of a user.
pub data UserPatch : Type 0 where
  is_admin disabled : Bool → UserPatch
  password : Str → UserPatch

pub data Request : Type 0 where
  get_users : Request
  patch_user : Str → UserPatch → Request
  delete_user : Str → Request
  post_user : NewUser → Request

-- `delete_clicked` says what was answered to the question, and `reset_password` what was typed, `none`
-- where it was cancelled. `acted` is the end of a PATCH or a DELETE, `created` that of a POST, with the
-- message of the error where there is one.
pub data Event : Type 0 where
  toggle_form cancel create : Event
  type_email type_name type_password : Str → Event
  flip_admin flip_disabled : Account → Event
  delete_clicked : Str → Bool → Event
  reset_password : Str → Option Str → Event
  listed : Result (Option (List Account)) → Event
  acted : Option Str → Event
  created : Option Str → Event

abbrev reset_request : Str → Option Str → List Request
reset_request i none = []
reset_request i (some p) = if eqs p [] then [] else patch_user i (password p) ∷ []

-- `setErr("")` of `patch`, which is not called without a password.
abbrev cleared : Users → List Request → Users × List Request
cleared s [] = (s, [])
cleared s (r ∷ rs) = (record s { err = [] }, r ∷ rs)

-- `!nu.email || nu.password.length < 8` of the button.
unfoldable pub is_held : NewUser → Bool
unfolding eqs
is_held u = eqs u.email [] || ltb (length u.password) 8

-- The fields of the form are there while it is open.
unfoldable pub step : Users → Event → Users × List Request
unfolding is_held eqs err_msg
step s toggle_form = (record s { creating = not s.creating }, [])
step s cancel = (record s { creating = false }, [])
step s (type_email t) =
    (if s.creating then record s { form = record s.form { email = t } } else s, [])
step s (type_name t) =
    (if s.creating then record s { form = record s.form { name = t } } else s, [])
step s (type_password t) =
    (if s.creating then record s { form = record s.form { password = t } } else s, [])
step s create =
    if s.creating && not (is_held s.form)
    then (record s { err = [] }, post_user s.form ∷ [])
    else (s, [])
step s (flip_admin u) = (record s { err = [] }, patch_user u.id (is_admin (not u.is_admin)) ∷ [])
step s (flip_disabled u) = (record s { err = [] }, patch_user u.id (disabled (not u.disabled)) ∷ [])
step s (delete_clicked i true) = (record s { err = [] }, delete_user i ∷ [])
step s (delete_clicked i false) = (s, [])
step s (reset_password i o) = cleared s (reset_request i o)
step s (listed (done o)) = (record s { users = o }, [])
step s (listed (failed e)) = (record s { err = codes "Could not load users." }, [])
step s (acted none) = (s, get_users ∷ [])
step s (acted (some e)) = (record s { err = err_msg e }, [])
step s (created none) = (record s { form = no_user; creating = false }, get_users ∷ [])
step s (created (some e)) = (record s { err = err_msg e }, [])
