-- ===== src/Repo/Chat.antt =====
-- `ChatDock`: the conversation with the model about a repository. `step` is one event, with the requests
-- that it makes; `replied` and `pref_loaded` are answers, `none` where the request failed.
pub mod Dialogue
use orchis_foundry.Prelude.{
  ℕ, Bool, true, false, not, ◌&&◌, ◌||◌, Option, none, some, List, [], ◌∷◌, ◌++◌, if◌then◌else◌,
  ◌==◌, Str, codes, eqs, trim,
}

pub data Role : Type 0 where
  user assistant : Role

pub record Message : Type 0 where
  pub role : Role
  pub content : Str

-- `enabled` is `none` while the preference is loaded.
pub record Chat : Type 0 where
  pub enabled : Option Bool
  pub is_open : Bool
  pub messages : List Message
  pub chat_id : ℕ
  pub input : Str
  pub busy : Bool
  pub err : Str

abbrev pub new_chat : Chat
new_chat = record {
  enabled = none;
  is_open = false;
  messages = [];
  chat_id = 0;
  input = [];
  busy = false;
  err = [];
}

pub data Request : Type 0 where
  post_chat : ℕ → List Message → List Str → Request
  patch_pref : Bool → Request

-- A chat without an id is answered by 0 here.
pub record Reply : Type 0 where
  pub chat_id : ℕ
  pub message : Str

pub data Event : Type 0 where
  pref_loaded : Option (Option Bool) → Event
  set_pref : Bool → Event
  click_strip collapse send : Event
  type_input : Str → Event
  replied : Option Reply → Event

abbrev call_failed : Str
call_failed = codes "The model call failed. Configure a model in Developer settings → Scanner."

-- `p.aiChat !== false`, and `true` where the request fails.
abbrev pref_on : Option (Option Bool) → Bool
pref_on (some (some b)) = b
pref_on _ = true

abbrev pub said : Role → Str → Message
said r s = record { role = r; content = s }

-- `setPref`.
abbrev save_pref : Chat → Bool → Chat × List Request
save_pref c on =
    (record c { enabled = some on; is_open = if on then c.is_open else false }, patch_pref on ∷ [])

-- A click on the strip, which is not there while the preference is loaded.
abbrev pub on_strip : Chat → Option Bool → Chat × List Request
on_strip c none = (c, [])
on_strip c (some true) = (record c { is_open = true }, [])
on_strip c (some false) = save_pref c true

-- The pinned files come from the view.
module _ (pins : List Str) where
  unfoldable pub step : Chat → Event → Chat × List Request
  unfolding trim eqs
  step c (pref_loaded o) = (record c { enabled = some (pref_on o) }, [])
  step c (set_pref on) = save_pref c on
  step c click_strip = on_strip c c.enabled
  step c collapse = (record c { is_open = false }, [])
  step c (type_input s) = (record c { input = s }, [])
  step c send =
      (if eqs (trim c.input) [] || c.busy then (c, []) else (
        record c {
          messages = c.messages ++ said user (trim c.input) ∷ [];
          input = [];
          busy = true;
          err = [];
        },
        post_chat c.chat_id (c.messages ++ said user (trim c.input) ∷ []) pins ∷ [],
      ))
  step c (replied none) = (record c { busy = false; err = call_failed }, [])
  step c (replied (some r)) = (
    record c {
      chat_id = if r.chat_id == 0 then c.chat_id else r.chat_id;
      messages = c.messages ++ said assistant r.message ∷ [];
      busy = false;
    },
    [],
  )

  unfoldable pub run : Chat → List Event → Chat × List Request
  unfolding step
  run c [] = (c, [])
  run c (e ∷ es) = let r = step c e in let rest = run r.0 es in (rest.0, r.1 ++ rest.1)
