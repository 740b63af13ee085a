-- ===== src/Tests/RepoForms.antt =====
-- The settings and the proposals of a repository at concrete events.
use orchis_foundry.Prelude.{false, none, some, [], ◌∷◌, ◌≡◌, refl, All, codes, session}
use orchis_foundry.Repo.Settings
use orchis_foundry.Repo.Settings.Allowed.{IsConfirmed, step-IsConfirmed}
use orchis_foundry.Repo.Proposals
use orchis_foundry.Repo.Proposals.Allowed.{IsPending, step-IsPending}

forms : Unit {0}
unfolding session Settings.step Settings.act Settings.new_branch_step
forms = tt

abbrev repo : Settings.Repo
repo = record {
  id = codes "me/a";
  org = codes "me";
  name = codes "a";
  description = [];
  visibility = [];
  default_branch = codes "main";
}

abbrev confirmed : Settings.Modal
confirmed = record (Settings.new_modal repo) { confirm_delete = codes "a" }

-- The repository is deleted where its name is typed, and not before.
deletes :
    ((Settings.step repo confirmed Settings.delete).1 ≡ Settings.delete_repo ∷ [])
    × ((Settings.step repo (Settings.new_modal repo) Settings.delete).1 ≡ [])
unfolding forms
deletes = (refl, refl)

step-IsConfirmed_example :
    All (IsConfirmed repo confirmed) (Settings.step repo confirmed Settings.delete).1
step-IsConfirmed_example = step-IsConfirmed repo confirmed Settings.delete

-- Enter, pressed twice, asks twice for the branch, while the button would wait.
branch_twice :
    (session
      (Settings.step repo)
      (Settings.new_modal repo)
      (Settings.type_branch (codes "x") ∷ Settings.enter_branch ∷ Settings.enter_branch ∷ [])).1
    ≡ Settings.post_branch (codes "x") (codes "main")
      ∷ Settings.post_branch (codes "x") (codes "main")
      ∷ []
unfolding forms
branch_twice = refl

abbrev pending : Proposals.Proposals
pending = record {
  items = some (record { id = codes "7"; status = codes "pending"; pull_number = none } ∷ []);
  opened = some (codes "7");
  busy = false;
  note = [];
}

accepts :
    (Proposals.step (codes "write") pending (Proposals.act Proposals.accept (codes "7"))).1
    ≡ Proposals.post_verb (codes "7") Proposals.accept ∷ []
unfolding Proposals.step
accepts = refl

step-IsPending_example :
    All
      (IsPending (codes "write") pending)
      (Proposals.step (codes "write") pending (Proposals.act Proposals.accept (codes "7"))).1
step-IsPending_example =
    step-IsPending (codes "write") pending (Proposals.act Proposals.accept (codes "7"))
