-- ===== src/Settings/Keys.antt =====
-- `SSHPanel`: the SSH keys and the form for a new one.
use orchis_foundry.Prelude.{
  Bool, true, false, not, ◌&&◌, ◌||◌, Option, none, some, List, [], ◌∷◌, if◌then◌else◌, Str, codes,
  eqs, trim,
}
use orchis_foundry.Api.{Result, done, failed}

pub record Key : Type 0 where
  pub id : Str
  pub name : Str
  pub fingerprint : Str

-- `keys` is `none` until the first answer; `is_open` is `newKey`.
pub record Keys : Type 0 where
  pub keys : Option (List Key)
  pub is_open : Bool
  pub name : Str
  pub body : Str
  pub busy : Bool
  pub err : Str

pub data Request : Type 0 where
  get_keys : Request
  post_key : Str → Str → Request
  delete_key : Str → Request

pub data Event : Type 0 where
  new_clicked cancel add : Event
  type_name type_body remove : Str → Event
  added removed : Bool → Event
  listed : Result (Option (List Key)) → Event

abbrev pub add_failed : Str
add_failed = codes "Could not add key — check it's a valid public key and isn't already registered."

abbrev list_or_nil : Result (Option (List Key)) → Option (List Key)
list_or_nil (done o) = o
list_or_nil (failed e) = some []

-- `!name || !body || busy` of the button.
unfoldable pub is_held : Keys → Bool
unfolding eqs
is_held s = eqs s.name [] || eqs s.body [] || s.busy

unfoldable pub step : Keys → Event → Keys × List Request
unfolding is_held trim
step s new_clicked = (record s { is_open = true }, [])
step s cancel = (if s.is_open then record s { is_open = false; err = [] } else s, [])
step s (type_name t) = (if s.is_open then record s { name = t } else s, [])
step s (type_body t) = (if s.is_open then record s { body = t } else s, [])
step s add =
    if s.is_open && not (is_held s)
    then (record s { err = []; busy = true }, post_key (trim s.name) (trim s.body) ∷ [])
    else (s, [])
step s (added true) =
    (record s { name = []; body = []; is_open = false; busy = false }, get_keys ∷ [])
step s (added false) = (record s { err = add_failed; busy = false }, [])
step s (remove i) = (s, delete_key i ∷ [])
step s (removed ok) = (s, if ok then get_keys ∷ [] else [])
step s (listed r) = (record s { keys = list_or_nil r }, [])

-- `keys != null ? keys : []`.
abbrev shown_keys : Keys → List Key
shown_keys s = elim s.keys [ none ↦ [] | some l ↦ l ]
