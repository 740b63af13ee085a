-- ===== src/Repo/Settings.antt =====
-- `RepoSettingsModal`: one opening of the dialog in which the owner changes a repository, its branches
-- and its collaborators, or deletes it. A handler that awaits two answers is three events.
pub mod Allowed
use orchis_foundry.Prelude.{
  Bool, true, false, not, ◌&&◌, ◌||◌, Option, none, some, List, [], ◌∷◌, ◌++◌, if◌then◌else◌, Str,
  codes, eqs, trim, includes,
}
use orchis_foundry.Api.{Result, done, failed}

-- The repository that the dialog is about. What is missing is an empty text.
pub record Repo : Type 0 where
  pub id : Str
  pub org : Str
  pub name : Str
  pub description : Str
  pub visibility : Str
  pub default_branch : Str

pub record Collab : Type 0 where
  pub handle : Str
  pub role : Str

pub record Modal : Type 0 where
  pub is_open : Bool
  pub name : Str
  pub description : Str
  pub visibility : Str
  pub default_branch : Str
  pub branches : List Str
  pub busy : Bool
  pub err : Str
  pub confirm_delete : Str
  pub new_branch : Str
  pub branch_busy : Bool
  pub collabs : List Collab
  pub collab_handle : Str
  pub collab_role : Str

-- `a || b`.
abbrev pub or_default : Str → Str → Str
or_default a b = if eqs a [] then b else a

abbrev pub new_modal : Repo → Modal
new_modal repo = record {
  is_open = true;
  name = repo.name;
  description = repo.description;
  visibility = or_default repo.visibility (codes "private");
  default_branch = or_default repo.default_branch (codes "main");
  branches = [];
  busy = false;
  err = [];
  confirm_delete = [];
  new_branch = [];
  branch_busy = false;
  collabs = [];
  collab_handle = [];
  collab_role = codes "write";
}

-- `go_repo` and `go_home` are routes that are set, `load_repos` is `loadRepos`.
pub data Request : Type 0 where
  get_branches get_collabs : Request
  post_branch : Str → Str → Request
  delete_branch : Str → Request
  put_collab : Str → Str → Request
  delete_collab : Str → Request
  patch_repo : Str → Str → Str → Str → Request
  delete_repo load_repos go_home : Request
  go_repo : Str → Request

-- `enter_branch` is Enter in the field of the new branch, `create_branch` its button; so for
-- collaborators. `patched` brings the id of the repository, empty where it is missing; the events that
-- end in `reloaded` follow `loadRepos`, however it ends.
pub data Event : Type 0 where
  close save delete create_branch enter_branch add_collab enter_collab : Event
  type_name type_description pick_branch pick_visibility type_confirm : Str → Event
  type_branch type_collab pick_role remove_branch remove_collab : Str → Event
  got_branches : Result (Option (List Str)) → Event
  got_collabs : Result (Option (List Collab)) → Event
  branch_created branch_deleted collab_added collab_removed deleted : Bool → Event
  patched : Result Str → Event
  saved_reloaded : Str → Event
  deleted_reloaded : Event

abbrev create_failed : Str
create_failed = codes "Could not create branch — the name may be invalid or already exist."

abbrev branch_failed : Str
branch_failed = codes "Could not delete branch — you can't delete the default branch."

abbrev collab_failed : Str
collab_failed = codes "Could not add collaborator — check the handle exists."

abbrev save_failed : Str
save_failed =
    codes
      "Could not save — the name may be taken, the default branch may not exist, or the value is invalid."

abbrev or_nil {ℓ} : {A : Type ℓ} → Option (List A) → List A
or_nil none = []
or_nil (some l) = l

abbrev pub handles : List Collab → List Str
handles [] = []
handles (c ∷ cs) = c.handle ∷ handles cs

-- `createBranch`.
unfoldable pub new_branch_step : Modal → Modal × List Request
unfolding eqs trim
new_branch_step s = if eqs (trim s.new_branch) [] then (s, []) else (
  record s { err = []; branch_busy = true },
  post_branch (trim s.new_branch) s.default_branch ∷ [],
)

-- `addCollab`.
unfoldable pub new_collab_step : Modal → Modal × List Request
unfolding eqs trim
new_collab_step s =
    if eqs (trim s.collab_handle) []
    then (s, [])
    else (record s { err = [] }, put_collab (trim s.collab_handle) s.collab_role ∷ [])

-- Whether a branch has a button to delete it.
unfoldable pub deletable : Repo → Modal → Str → Bool
unfolding includes eqs
deletable repo s b =
    includes s.branches b && not (eqs b (or_default repo.default_branch s.default_branch))

module _ (repo : Repo) where
  -- What is clicked or typed in the dialog.
  unfoldable pub act : Modal → Event → Modal × List Request
  unfolding new_branch_step new_collab_step deletable includes eqs trim
  act s close = (record s { is_open = false }, [])
  act s (type_name t) = (record s { name = t }, [])
  act s (type_description t) = (record s { description = t }, [])
  act s (pick_branch t) = (record s { default_branch = t }, [])
  act s (pick_visibility t) = (record s { visibility = t }, [])
  act s (type_confirm t) = (record s { confirm_delete = t }, [])
  act s (type_branch t) = (record s { new_branch = t }, [])
  act s (type_collab t) = (record s { collab_handle = t }, [])
  act s (pick_role t) = (record s { collab_role = t }, [])
  act s enter_branch = new_branch_step s
  act s create_branch = if s.branch_busy then (s, []) else new_branch_step s
  act s (remove_branch b) =
      if deletable repo s b then (record s { err = [] }, delete_branch b ∷ []) else (s, [])
  act s enter_collab = new_collab_step s
  act s add_collab = new_collab_step s
  act s (remove_collab h) =
      if includes (handles s.collabs) h then (s, delete_collab h ∷ []) else (s, [])
  act s save = if s.busy || eqs (trim s.name) [] then (s, []) else (
    record s { err = []; busy = true },
    patch_repo (trim s.name) s.description s.visibility s.default_branch ∷ [],
  )
  act s delete =
      if s.busy || not (eqs s.confirm_delete repo.name)
      then (s, [])
      else (record s { busy = true }, delete_repo ∷ [])
  act s _ = (s, [])

  -- The answers come also after the dialog is closed.
  unfoldable pub step : Modal → Event → Modal × List Request
  unfolding act eqs
  step s (got_branches (done o)) = (record s { branches = or_nil o }, [])
  step s (got_branches (failed e)) = (s, [])
  step s (got_collabs (done o)) = (record s { collabs = or_nil o }, [])
  step s (got_collabs (failed e)) = (s, [])
  step s (branch_created true) =
      (record s { new_branch = []; branch_busy = false }, get_branches ∷ [])
  step s (branch_created false) = (record s { err = create_failed; branch_busy = false }, [])
  step s (branch_deleted true) = (s, get_branches ∷ [])
  step s (branch_deleted false) = (record s { err = branch_failed }, [])
  step s (collab_added true) = (record s { collab_handle = [] }, get_collabs ∷ [])
  step s (collab_added false) = (record s { err = collab_failed }, [])
  step s (collab_removed ok) = (s, if ok then get_collabs ∷ [] else [])
  step s (patched (done i)) = (s, load_repos ∷ [])
  step s (patched (failed e)) = (record s { err = save_failed; busy = false }, [])
  step s (saved_reloaded i) = (
    record s { is_open = false },
    if not (eqs i []) && not (eqs i repo.id) then go_repo i ∷ [] else [],
  )
  step s (deleted true) = (s, load_repos ∷ [])
  step s (deleted false) = (record s { err = codes "Delete failed."; busy = false }, [])
  step s deleted_reloaded = (record s { is_open = false }, go_home ∷ [])
  step s e = if s.is_open then act s e else (s, [])
