-- ===== src/Settings/Security.antt =====
-- `SecurityPanel`: the sessions of the browser, and their end.
pub mod Others
use orchis_foundry.Prelude.{
  ℕ, Bool, true, false, not, ◌&&◌, Option, none, some, List, [], ◌∷◌, if◌then◌else◌, length, filter,
  ltb, Str, eqs,
}
use orchis_foundry.Api.{Result, done, failed}

pub record BrowserSession : Type 0 where
  pub id : Str
  pub is_current : Bool

pub record Security : Type 0 where
  pub sessions : Option (List BrowserSession)
  pub busy : Bool

abbrev new_security : Security
new_security = record { sessions = none; busy = false }

pub data Request : Type 0 where
  get_sessions post_revoke_others : Request
  delete_session : Str → Request

-- `revoke` is a click in the row of a session.
pub data Event : Type 0 where
  listed : Result (Option (List BrowserSession)) → Event
  revoke : BrowserSession → Event
  revoked others_revoked : Bool → Event
  revoke_others : Event

abbrev or_nil : Option (List BrowserSession) → List BrowserSession
or_nil none = []
or_nil (some l) = l

abbrev pub shown_sessions : Security → List BrowserSession
shown_sessions s = or_nil s.sessions

-- `others`.
pub other_count : Security → ℕ
other_count s = length (filter (λ x. not x.is_current) (shown_sessions s))

abbrev list_or_nil : Result (Option (List BrowserSession)) → Option (List BrowserSession)
list_or_nil (done o) = o
list_or_nil (failed e) = some []

pub same_row : BrowserSession → BrowserSession → Bool
unfolding eqs
same_row y x = eqs y.id x.id && (if y.is_current then x.is_current else not x.is_current)

-- Whether the list has a row for this session.
pub has_row : List BrowserSession → BrowserSession → Bool
unfolding same_row
has_row [] x = false
has_row (y ∷ ys) x = let rest = has_row ys x in if same_row y x then true else rest

unfoldable pub step : Security → Event → Security × List Request
unfolding other_count has_row
step s (listed r) = (record s { sessions = list_or_nil r }, [])
step s (revoke x) =
    if has_row (shown_sessions s) x && not x.is_current
    then (s, delete_session x.id ∷ [])
    else (s, [])
step s (revoked ok) = (s, if ok then get_sessions ∷ [] else [])
step s revoke_others =
    if ltb 0 (other_count s) && not s.busy
    then (record s { busy = true }, post_revoke_others ∷ [])
    else (s, [])
step s (others_revoked ok) = (record s { busy = false }, if ok then get_sessions ∷ [] else [])
