-- ===== src/Repo/Releases.antt =====
-- `ReleasesView`: the releases of a repository and the form for a new one. Whether the user owns the
-- repository is given.
pub mod Published
use orchis_foundry.Prelude.{
  ℕ, Bool, true, false, not, ◌&&◌, ◌||◌, Option, none, some, List, [], ◌∷◌, if◌then◌else◌, Str,
  codes, eqs, trim,
}
use orchis_foundry.Api.{Result, done, failed}

pub record Release : Type 0 where
  pub tag : Str
  pub name : Str

pub record Releases : Type 0 where
  pub items : Option (List Release)
  pub creating : Bool
  pub tag : Str
  pub name : Str
  pub body : Str
  prerelease : Bool
  pub busy : Bool
  pub err : Str

abbrev pub new_releases : Releases
new_releases = record {
  items = none;
  creating = false;
  tag = [];
  name = [];
  body = [];
  prerelease = false;
  busy = false;
  err = [];
}

pub data Request : Type 0 where
  get_releases : Request
  post_release : Str → Str → Str → Bool → Request
  delete_release : Str → Request

pub data Event : Type 0 where
  draft cancel publish : Event
  type_tag type_name type_body remove : Str → Event
  set_prerelease published removed : Bool → Event
  listed : Result (Option (List Release)) → Event

abbrev publish_failed : Str
publish_failed = codes "Could not publish — the tag may be invalid or already released."

abbrev list_or_nil : Result (Option (List Release)) → Option (List Release)
list_or_nil (done o) = o
list_or_nil (failed e) = some []

abbrev pub or_nil : Option (List Release) → List Release
or_nil none = []
or_nil (some l) = l

unfoldable pub has_tag : List Release → Str → Bool
unfolding eqs
has_tag [] t = false
has_tag (r ∷ rs) t = if eqs r.tag t then true else has_tag rs t

-- The form is there while it is open, and a row has its button for the owner.
module _ (is_owner : Bool) where
  unfoldable pub step : Releases → Event → Releases × List Request
  unfolding has_tag eqs trim
  step s draft = (if is_owner then record s { err = []; creating = not s.creating } else s, [])
  step s cancel = (record s { creating = false }, [])
  step s (type_tag t) = (if s.creating then record s { tag = t } else s, [])
  step s (type_name t) = (if s.creating then record s { name = t } else s, [])
  step s (type_body t) = (if s.creating then record s { body = t } else s, [])
  step s (set_prerelease b) = (if s.creating then record s { prerelease = b } else s, [])
  step s publish = if not s.creating || eqs (trim s.tag) [] || s.busy then (s, []) else (
    record s { err = []; busy = true },
    post_release (trim s.tag) (trim s.name) (trim s.body) s.prerelease ∷ [],
  )
  step s (published true) = (
    record s { tag = []; name = []; body = []; prerelease = false; creating = false; busy = false },
    get_releases ∷ [],
  )
  step s (published false) = (record s { err = publish_failed; busy = false }, [])
  step s (remove t) =
      if is_owner && has_tag (or_nil s.items) t then (s, delete_release t ∷ []) else (s, [])
  step s (removed ok) = (s, if ok then get_releases ∷ [] else [])
  step s (listed r) = (record s { items = list_or_nil r }, [])
