-- ===== src/Settings/Tokens.antt =====
-- `TokensPanel` and `NewTokenForm`: the access tokens, the form for a new one, and the view that shows
-- the value of a token.
pub mod Shown
pub mod Posts
use orchis_foundry.Prelude.{
  ℕ, suc, Bool, true, false, not, ◌&&◌, ◌||◌, Option, none, some, List, [], ◌∷◌, ◌++◌,
  if◌then◌else◌, ◌==◌, Str, codes, eqs, trim,
}
use orchis_foundry.Api.{Result, done, failed}

pub record AccessToken : Type 0 where
  pub id : Str
  pub name : Str
  pub scopes : List Str

-- A token that was just made, with its secret.
pub record Generated : Type 0 where
  pub name : Str
  pub value : Str

-- The options of `Expires`.
pub data Expiry : Type 0 where
  days_30 days_60 days_90 days_365 never : Expiry

-- `expires_in_days`.
abbrev pub expires_in_days : Expiry → ℕ
expires_in_days days_30 = 30
expires_in_days days_60 = 60
expires_in_days days_90 = 90
expires_in_days days_365 = 365
expires_in_days never = 0

-- A key of `scopes` with its value, in the order in which the keys were set first.
pub record Box : Type 0 where
  pub id : Str
  pub is_on : Bool

-- `{ ...p, [id]: !p[id] }`.
unfoldable pub toggle_scope : List Box → Str → List Box
unfolding eqs
toggle_scope [] i = record { id = i; is_on = true } ∷ []
toggle_scope (b ∷ bs) i =
    let rest = toggle_scope bs i in
    if eqs b.id i then record b { is_on = not b.is_on } ∷ bs else b ∷ rest

-- `!!scopes[id]`.
pub is_ticked : List Box → Str → Bool
unfolding eqs
is_ticked [] i = false
is_ticked (b ∷ bs) i = if eqs b.id i then b.is_on else is_ticked bs i

-- `Object.keys(scopes).filter(k => scopes[k])`.
unfoldable pub selected : List Box → List Str
selected [] = []
selected (b ∷ bs) = if b.is_on then b.id ∷ selected bs else selected bs

-- The state of `NewTokenForm`. `mount` tells a form from those that were open before.
pub record Form : Type 0 where
  pub mount : ℕ
  pub name : Str
  pub expires : Expiry
  pub scopes : List Box
  pub busy : Bool
  pub err : Str

abbrev new_form : ℕ → Form
new_form n = record {
  mount = n;
  name = [];
  expires = days_90;
  scopes = record { id = codes "repo:read"; is_on = true } ∷ [];
  busy = false;
  err = [];
}

-- `form` is there where `newToken` is set. The hooks of `TokensPanel` stand behind the return that shows a
-- new token, so they are lost there and begin anew after it: `panel` tells them from those before, and
-- `tokens` is `none` until the first answer to them.
pub record Tokens : Type 0 where
  pub form : Option Form
  pub mounts : ℕ
  pub generated : Option Generated
  pub tokens : Option (List AccessToken)
  pub panel : ℕ

abbrev pub new_tokens : Tokens
new_tokens = record { form = none; mounts = 0; generated = none; tokens = none; panel = 0 }

pub data Request : Type 0 where
  get_tokens : ℕ → Request
  post_token : ℕ → Str → List Str → ℕ → Request
  post_rotate : Str → Request
  delete_token : ℕ → Str → Request

pub data Event : Type 0 where
  new_clicked cancel submit saved : Event
  type_name toggle : Str → Event
  pick_expiry : Expiry → Event
  rotate revoke : Str → Event
  created : ℕ → Result Generated → Event
  rotated : Result Generated → Event
  revoked : ℕ → Bool → Event
  listed : ℕ → Result (Option (List AccessToken)) → Event

abbrev pub create_failed : Str
create_failed = codes "Could not create token. Try again."

-- `setNewToken(true)`: a form that is open stays as it is.
abbrev pub open_form : Tokens → Option Form → Tokens
open_form s none = record s { form = some (new_form s.mounts); mounts = suc s.mounts }
open_form s (some f) = s

-- The form is not rendered with a new token, so an open one begins anew after it.
abbrev pub reset_form : Tokens → Option Form → Tokens
reset_form s none = s
reset_form s (some f) = record s { form = some (new_form s.mounts); mounts = suc s.mounts }

abbrev pub in_form : Tokens → Option Form → (Form → Form) → Tokens
in_form s none f = s
in_form s (some x) f = record s { form = some (f x) }

unfoldable pub submit_form : Tokens → Option Form → Tokens × List Request
unfolding eqs trim
submit_form s none = (s, [])
submit_form s (some f) = if eqs (trim f.name) [] || f.busy then (s, []) else (
  record s { form = some (record f { err = []; busy = true }) },
  post_token f.mount (trim f.name) (selected f.scopes) (expires_in_days f.expires) ∷ [],
)

-- A form that is gone takes no answer.
abbrev pub not_created : ℕ → Form → Form
not_created n f = if f.mount == n then record f { err = create_failed; busy = false } else f

-- The panel, where no new token is shown.
unfoldable pub panel_step : Tokens → Event → Tokens × List Request
unfolding submit_form toggle_scope
panel_step s new_clicked = (open_form s s.form, [])
panel_step s cancel = (record s { form = none }, [])
panel_step s submit = submit_form s s.form
panel_step s (type_name t) = (in_form s s.form (λ f. record f { name = t }), [])
panel_step s (toggle i) =
    (in_form s s.form (λ f. record f { scopes = toggle_scope f.scopes i }), [])
panel_step s (pick_expiry e) = (in_form s s.form (λ f. record f { expires = e }), [])
panel_step s (rotate i) = (s, post_rotate i ∷ [])
panel_step s (revoke i) = (s, delete_token s.panel i ∷ [])
panel_step s _ = (s, [])

abbrev list_or_nil : Result (Option (List AccessToken)) → Option (List AccessToken)
list_or_nil (done o) = o
list_or_nil (failed e) = some []

-- `setGenerated`.
abbrev show_generated : Tokens → Generated → Tokens
show_generated s g = record s { generated = some g; tokens = none; panel = suc s.panel }

-- "I've saved it", with which the list is read again.
abbrev pub dismiss : Tokens → Option Generated → Tokens × List Request
dismiss s none = (s, [])
dismiss s (some g) = (record s { generated = none }, get_tokens s.panel ∷ [])

-- The panel is not there while a new token is shown.
unfoldable pub unless_shown : Tokens → Event → Option Generated → Tokens × List Request
unfolding panel_step
unless_shown s e none = panel_step s e
unless_shown s e (some g) = (s, [])

-- The answers come whatever is shown; the list of a panel that is gone is not taken.
unfoldable pub step : Tokens → Event → Tokens × List Request
unfolding unless_shown
step s saved = dismiss s s.generated
step s (created n (done g)) = (show_generated (record s { form = none }) g, [])
step s (created n (failed e)) = (in_form s s.form (not_created n), [])
step s (rotated (done g)) = (show_generated (reset_form s s.form) g, [])
step s (rotated (failed e)) = (s, [])
step s (revoked n ok) = (s, if ok then get_tokens n ∷ [] else [])
step s (listed n r) = (if n == s.panel then record s { tokens = list_or_nil r } else s, [])
step s e = unless_shown s e s.generated
