-- ===== src/Settings/Account.antt =====
-- `AccountPanel`: the display name, the bio and the photo of the user.
pub mod Shown
use orchis_foundry.Prelude.{
  Bool, true, false, not, ◌&&◌, ◌||◌, Option, none, some, List, [], ◌∷◌, ◌++◌, if◌then◌else◌, Str,
  codes, eqs, trim,
}
use orchis_foundry.Api.{Result, done, failed}

-- A field that is missing is an empty text.
pub record Profile : Type 0 where
  pub name : Str
  pub bio : Str
  pub initials : Str
  pub avatar_url : Str

-- `me` is `none` while the panel loads. `user` stands for the same fields of `USERS.me`, which the rest
-- of the application shows.
pub record Account : Type 0 where
  pub me : Option Profile
  pub user : Profile
  pub name : Str
  pub bio : Str
  pub busy : Bool
  pub saved : Bool
  pub err : Str
  avatar_busy : Bool

abbrev pub new_account : Profile → Account
new_account u = record {
  me = none;
  user = u;
  name = [];
  bio = [];
  busy = false;
  saved = false;
  err = [];
  avatar_busy = false;
}

-- `me_changed` is the event "orchis:me-changed" that the application listens to.
pub data Request : Type 0 where
  patch_me : Str → Str → Request
  post_avatar delete_avatar me_changed : Request

pub data Event : Type 0 where
  loaded saved_answer : Result Profile → Event
  type_name type_bio : Str → Event
  save pick_file remove_photo : Event
  uploaded photo_removed : Result Profile → Event

abbrev pub save_failed : Str
save_failed = codes "Could not save — name must be 1–80 chars and bio ≤ 280."

abbrev upload_failed : Str
upload_failed = codes "Could not upload — use a png/jpeg/gif/webp under 512 KB."

abbrev is_loaded : Option Profile → Bool
is_loaded none = false
is_loaded (some u) = true

-- `me.avatarUrl`, where the photo can be removed.
unfoldable has_photo : Option Profile → Bool
unfolding eqs
has_photo none = false
has_photo (some u) = not (eqs u.avatar_url [])

-- `applyMe`.
abbrev apply_me : Account → Profile → Account
apply_me s u = record s { me = some u; user = u }

-- The form is there once the user is loaded.
unfoldable pub step : Account → Event → Account × List Request
unfolding eqs trim has_photo
step s (loaded (done u)) = (record s { me = some u; name = u.name; bio = u.bio }, [])
step s (loaded (failed e)) = (s, [])
step s (type_name t) = (if is_loaded s.me then record s { name = t; saved = false } else s, [])
step s (type_bio t) = (if is_loaded s.me then record s { bio = t; saved = false } else s, [])
step s save =
    if is_loaded s.me && not (s.busy || eqs (trim s.name) [])
    then (
      record s { err = []; saved = false; busy = true },
      patch_me (trim s.name) (trim s.bio) ∷ [],
    )
    else (s, [])
step s (saved_answer (done u)) =
    (record (apply_me s u) { saved = true; busy = false }, me_changed ∷ [])
step s (saved_answer (failed e)) = (record s { err = save_failed; busy = false }, [])
step s pick_file =
    if is_loaded s.me && not s.avatar_busy
    then (record s { err = []; avatar_busy = true }, post_avatar ∷ [])
    else (s, [])
step s (uploaded (done u)) = (record (apply_me s u) { avatar_busy = false }, me_changed ∷ [])
step s (uploaded (failed e)) = (record s { err = upload_failed; avatar_busy = false }, [])
step s remove_photo =
    if has_photo s.me then (record s { err = [] }, delete_avatar ∷ []) else (s, [])
step s (photo_removed (done u)) = (apply_me s u, me_changed ∷ [])
step s (photo_removed (failed e)) = (s, [])
