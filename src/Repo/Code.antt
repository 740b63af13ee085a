-- ===== src/Repo/Code.antt =====
-- `CodeView`: a file with its blame, its outline and its editor. `gen` counts the runs of the effect on
-- `[repoId, path, reload]`, each of which cancels the request for the blob of the run before. An answer
-- that is `none` is a failed request. What the view shows only with a blob has that as its guard.
pub mod Commits
pub mod Panels
use orchis_foundry.Prelude.{
  ℕ, suc, ◌+◌, Bool, true, false, not, ◌&&◌, ◌||◌, Option, none, some, List, [], ◌∷◌, ◌++◌,
  if◌then◌else◌, ◌==◌, Str, codes, eqs, trim, take,
}

pub record BlameLine : Type 0 where
  pub line : ℕ
  pub sha : Str
  pub author : Str
  pub summary : Str

pub record OutlineSymbol : Type 0 where
  pub kind : Str
  pub name : Str

pub record CodeView : Type 0 where
  pub path : Str
  blob : Option Str
  pub err : Bool
  pub gen : ℕ
  pub blame : Option (List BlameLine)
  pub show_blame : Bool
  pub outline : Option (List OutlineSymbol)
  pub show_outline : Bool
  pub editing : Bool
  pub draft : Str
  pub msg : Str
  pub to_new : Bool
  pub new_branch : Str
  pub busy : Bool
  pub note : Str

pub data Request : Type 0 where
  get_blob get_blame get_outline : Str → Request
  post_commit : Str → Str → Str → Str → Request
  post_draft : Str → Str → Request

pub record Committed : Type 0 where
  pub sha : Str
  pub branch : Str

-- The answer to a commit comes with the `toNew` of the click.
pub data Event : Type 0 where
  show_path : Str → Event
  got_blob : ℕ → Option Str → Event
  toggle_blame toggle_outline start_edit cancel_edit commit generate : Event
  got_blame : Option (List BlameLine) → Event
  got_outline : Option (List OutlineSymbol) → Event
  type_draft type_msg type_branch : Str → Event
  pick_new : Bool → Event
  committed : Bool → Option Committed → Event
  drafted : Option Str → Event

abbrev has_blob : CodeView → Bool
has_blob v = elim v.blob [ none ↦ false | some b ↦ true ]

abbrev pub or_empty : Option Str → Str
or_empty none = []
or_empty (some s) = s

abbrev is_some {ℓ} : {A : Type ℓ} → Option A → Bool
is_some none = false
is_some (some x) = true

abbrev pub or_nil {ℓ} : {A : Type ℓ} → Option (List A) → List A
or_nil none = []
or_nil (some l) = l

abbrev is_readme : Str → Bool
is_readme path = eqs path (codes "README.md")

-- The effect.
unfoldable pub load : CodeView → CodeView × List Request
unfolding eqs
load v = (
  record v {
    blob = none;
    err = false;
    gen = v.gen + 1;
    blame = none;
    show_blame = false;
    outline = none;
    show_outline = false;
    editing = false;
    note = [];
  },
  if eqs v.path [] || is_readme v.path then [] else get_blob v.path ∷ [],
)

-- The view of a path at first.
unfoldable pub open_path : Str → CodeView × List Request
unfolding load
open_path path = load (record {
  path = path;
  blob = none;
  err = false;
  gen = 0;
  blame = none;
  show_blame = false;
  outline = none;
  show_outline = false;
  editing = false;
  draft = [];
  msg = [];
  to_new = false;
  new_branch = [];
  busy = false;
  note = [];
})

abbrev pub commit_note : Committed → Str
commit_note r = codes "Committed " ++ (take 7 r.sha ++ (codes " to " ++ (r.branch ++ codes ".")))

abbrev pub commit_failed : Str
commit_failed = codes "Commit failed — you may lack write access, or the branch moved."

abbrev draft_failed : Str
draft_failed = codes "Couldn't draft a message — is a model configured in Developer settings?"

-- `if (res && res.message) setMsg(res.message)`.
abbrev drafted_msg : CodeView → Str → CodeView
drafted_msg v m = if eqs m [] then v else record v { msg = m }

module _ (can_write : Bool) (def_branch : Str) where
  abbrev pub branch_of : CodeView → Str
  branch_of v = if v.to_new then trim v.new_branch else def_branch

  -- The button is enabled.
  abbrev pub can_commit : CodeView → Bool
  can_commit v =
      v.editing && not (v.busy || (eqs (trim v.msg) [] || v.to_new && eqs (trim v.new_branch) []))

  unfoldable pub step : CodeView → Event → CodeView × List Request
  unfolding load trim eqs
  step v (show_path path) = (if eqs path v.path then (v, []) else load (record v { path = path }))
  step v (got_blob g none) = (if g == v.gen then record v { err = true } else v, [])
  step v (got_blob g (some b)) = (if g == v.gen then record v { blob = some b } else v, [])
  step v toggle_blame =
      (if has_blob v && not v.editing
        then (
          record v { show_blame = not v.show_blame; show_outline = false },
          if not v.show_blame && not (is_some v.blame) then get_blame v.path ∷ [] else [],
        )
        else (v, []))
  step v toggle_outline =
      (if has_blob v && not v.editing
        then (
          record v { show_outline = not v.show_outline; show_blame = false },
          if not v.show_outline && not (is_some v.outline) then get_outline v.path ∷ [] else [],
        )
        else (v, []))
  step v (got_blame o) = (record v { blame = some (or_nil o) }, [])
  step v (got_outline o) = (record v { outline = some (or_nil o) }, [])
  step v start_edit = (
    if has_blob v && (can_write && not v.editing)
        then record v {
          draft = or_empty v.blob;
          msg = codes "Update " ++ v.path;
          to_new = false;
          new_branch = [];
          note = [];
          show_blame = false;
          editing = true;
        }
        else v,
    [],
  )
  step v cancel_edit = (if v.busy then v else record v { editing = false }, [])
  step v (type_draft s) = (record v { draft = s }, [])
  step v (type_msg s) = (record v { msg = s }, [])
  step v (type_branch s) = (record v { new_branch = s }, [])
  step v (pick_new b) = (record v { to_new = b }, [])
  step v commit =
      (if can_commit v
        then (
          record v { busy = true; note = [] },
          post_commit (branch_of v) v.msg v.path v.draft ∷ [],
        )
        else (v, []))
  step v (committed new none) = (record v { busy = false; note = commit_failed }, [])
  step v (committed true (some r)) =
      (record v { busy = false; editing = false; note = commit_note r }, [])
  step v (committed false (some r)) =
      load (record v { busy = false; editing = false; note = commit_note r })
  step v generate = (v, if v.editing && not v.busy then post_draft v.path v.draft ∷ [] else [])
  step v (drafted none) = (record v { note = draft_failed }, [])
  step v (drafted (some m)) = (drafted_msg v m, [])

  unfoldable pub run : CodeView → List Event → CodeView × List Request
  unfolding step
  run v [] = (v, [])
  run v (e ∷ es) = let r = step v e in let rest = run r.0 es in (rest.0, r.1 ++ rest.1)
