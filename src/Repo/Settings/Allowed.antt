-- ===== src/Repo/Settings/Allowed.antt =====
-- What the dialog of the settings asks the server for.
use orchis_foundry.Prelude.{
  ℕ, suc, ◌+◌, ◌≤◌, true, false, not, ◌&&◌, ◌||◌, List, [], ◌∷◌, if◌then◌else◌, if-case, and_both,
  or_neither, not-true, not-false, eqs_nil, ◌≡◌, ◌≢◌, refl, arith, All, total, session,
  session-waits, Str, eqs, eqs_iff, trim, trim_idem, includes,
}
use orchis_foundry.Api.{done, failed}
use orchis_foundry.Repo.Settings.{
  Repo, Modal, or_default, new_modal, Request, post_branch, delete_branch, put_collab, patch_repo,
  delete_repo, delete_collab, go_repo, handles, Event, save, delete, create_branch, enter_branch,
  add_collab, enter_collab, remove_branch, remove_collab, got_branches, got_collabs, branch_created,
  branch_deleted, collab_added, collab_removed, deleted, patched, saved_reloaded, deleted_reloaded,
  new_branch_step, new_collab_step, deletable, act, step,
}

-- The repository is deleted in an open dialog in which its name is typed and nothing is under way; a
-- branch only where it is listed and is not the default, a collaborator only where the handle is listed;
-- new names are not blank and have no blanks around them.
abbrev pub IsConfirmed : Repo → Modal → Request → Type 0
IsConfirmed repo s delete_repo =
    (s.is_open ≡ true) × (s.confirm_delete ≡ repo.name) × (s.busy ≡ false)
IsConfirmed repo s (delete_branch b) =
    (s.is_open ≡ true)
    × (includes s.branches b ≡ true)
    × (b ≢ or_default repo.default_branch s.default_branch)
IsConfirmed repo s (patch_repo n d v b) = (n ≢ []) × (trim n ≡ n) × (s.busy ≡ false)
IsConfirmed repo s (post_branch n from) = (n ≢ []) × (trim n ≡ n) × (from ≡ s.default_branch)
IsConfirmed repo s (put_collab h r) = (h ≢ []) × (trim h ≡ h)
IsConfirmed repo s (delete_collab h) = (s.is_open ≡ true) × (includes (handles s.collabs) h ≡ true)
IsConfirmed repo s _ = Unit

module _ (repo : Repo) where
  -- All that is sent with a new state is allowed in the state before.
  abbrev IsGood : Modal → Modal × List Request → Type 0
  IsGood s r = All (IsConfirmed repo s) r.1

  branch-IsGood : (s : Modal) → IsGood s (new_branch_step s)
  unfolding new_branch_step
  branch-IsGood s =
      if-case (IsGood s) (eqs (trim s.new_branch) []) _ _ (λ _. tt)
        (λ f. ((eqs_nil (trim s.new_branch) f, trim_idem s.new_branch, refl), tt))

  collab-IsGood : (s : Modal) → IsGood s (new_collab_step s)
  unfolding new_collab_step
  collab-IsGood s =
      if-case (IsGood s) (eqs (trim s.collab_handle) []) _ _ (λ _. tt)
        (λ f. ((eqs_nil (trim s.collab_handle) f, trim_idem s.collab_handle), tt))

  deletable-true :
      (s : Modal) (b : Str)
      → deletable repo s b ≡ true
      → (includes s.branches b ≡ true) × (b ≢ or_default repo.default_branch s.default_branch)
  unfolding deletable
  deletable-true s b t =
      let (i, n) =
        and_both (includes s.branches b)
          (not (eqs b (or_default repo.default_branch s.default_branch))) t in
      (
        i,
        λ q. cc (
          (eqs_iff b (or_default repo.default_branch s.default_branch)).1 q,
          not-true (eqs b (or_default repo.default_branch s.default_branch)) n,
        ),
      )

  act-IsGood : (s : Modal) (e : Event) → s.is_open ≡ true → IsGood s (act repo s e)
  unfolding act
  act-IsGood s enter_branch o = branch-IsGood s
  act-IsGood s create_branch o =
      if-case (IsGood s) s.branch_busy _ _ (λ _. tt) (λ _. branch-IsGood s)
  act-IsGood s (remove_branch b) o =
      if-case (IsGood s) (deletable repo s b) _ _
        (λ t. let (i, n) = deletable-true s b t in ((o, i, n), tt)) (λ _. tt)
  act-IsGood s enter_collab o = collab-IsGood s
  act-IsGood s add_collab o = collab-IsGood s
  act-IsGood s (remove_collab h) o =
      if-case (IsGood s) (includes (handles s.collabs) h) (s, delete_collab h ∷ []) (s, [])
        (λ t. ((o, t), tt)) (λ _. tt)
  act-IsGood s save o =
      if-case (IsGood s) (s.busy || eqs (trim s.name) []) _ _ (λ _. tt)
        (λ f.
          let (b, n) = or_neither s.busy (eqs (trim s.name) []) f in
          ((eqs_nil (trim s.name) n, trim_idem s.name, b), tt))
  act-IsGood s delete o =
      if-case (IsGood s) (s.busy || not (eqs s.confirm_delete repo.name)) _ _ (λ _. tt)
        (λ f.
          let (b, n) = or_neither s.busy (not (eqs s.confirm_delete repo.name)) f in
          (
            (
              o,
              (eqs_iff s.confirm_delete repo.name).0 (not-false (eqs s.confirm_delete repo.name) n),
              b,
            ),
            tt,
          ))
  act-IsGood s _ o = tt

  -- Whatever the state and the event, the repository is deleted only from an open dialog in which its
  -- name is typed and nothing is under way, a branch only from an open dialog where it is listed and is
  -- not the default, a collaborator is removed only from an open dialog that lists the handle, and the
  -- name that the repository, a new branch or a new collaborator is given is not blank and has no blanks
  -- around it.
  pub step-IsConfirmed : (s : Modal) (e : Event) → All (IsConfirmed repo s) (step repo s e).1
  unfolding step
  step-IsConfirmed s (got_branches (done o)) = tt
  step-IsConfirmed s (got_branches (failed e)) = tt
  step-IsConfirmed s (got_collabs (done o)) = tt
  step-IsConfirmed s (got_collabs (failed e)) = tt
  step-IsConfirmed s (branch_created true) = (tt, tt)
  step-IsConfirmed s (branch_created false) = tt
  step-IsConfirmed s (branch_deleted true) = (tt, tt)
  step-IsConfirmed s (branch_deleted false) = tt
  step-IsConfirmed s (collab_added true) = (tt, tt)
  step-IsConfirmed s (collab_added false) = tt
  step-IsConfirmed s (collab_removed true) = (tt, tt)
  step-IsConfirmed s (collab_removed false) = tt
  step-IsConfirmed s (patched (done i)) = (tt, tt)
  step-IsConfirmed s (patched (failed e)) = tt
  step-IsConfirmed s (saved_reloaded i) =
      if-case (λ rs. All (IsConfirmed repo s) rs) (not (eqs i []) && not (eqs i repo.id))
        (go_repo i ∷ []) [] (λ _. (tt, tt)) (λ _. tt)
  step-IsConfirmed s (deleted true) = (tt, tt)
  step-IsConfirmed s (deleted false) = tt
  step-IsConfirmed s deleted_reloaded = (tt, tt)
  step-IsConfirmed s e = if-case (IsGood s) s.is_open _ _ (λ t. act-IsGood s e t) (λ _. tt)

-- The requests that change the repository itself, and their refusals.
pub changes : Request → ℕ
changes (patch_repo n d v b) = 1
changes delete_repo = 1
changes _ = 0

unfoldable pub refusals : Event → ℕ
refusals (patched (failed e)) = 1
refusals (deleted false) = 1
refusals _ = 0

unfoldable waits : Modal → ℕ
waits s = if s.busy then 1 else 0

waits_one : (s : Modal) → waits s ≤ 1
unfolding waits
waits_one s = ground arith

step-waits :
    (repo : Repo) (s : Modal) (e : Event)
    → total changes (step repo s e).1 + waits s ≤ refusals e + waits (step repo s e).0
unfolding step act new_branch_step new_collab_step changes refusals waits
step-waits repo s e = ground arith

-- The dialog asks for one change of the repository at a time, and for none after one that was not
-- refused: the changes of a session are at most one more than the refusals.
pub session-one :
    (repo : Repo) (es : List Event)
    → total changes (session (step repo) (new_modal repo) es).1 ≤ suc (total refusals es)
session-one repo es = omega (
  arith,
  session-waits (step repo) changes refusals waits (step-waits repo) es (new_modal repo),
  waits_one (session (step repo) (new_modal repo) es).0,
)
