-- ===== src/Repo/Issues/Asked.antt =====
-- What the split of the issues asks the server for.
use orchis_foundry.Prelude.{
  true, false, not, ◌||◌, Option, none, some, List, [], if-case, or_neither, eqs_nil, ◌≡◌, ◌≢◌,
  refl, All, Str, eqs, trim, trim_idem,
}
use orchis_foundry.Api.{done, failed}
use orchis_foundry.Repo.Issues.{
  Issue, Detail, Issues, Request, post_issue, post_comment, patch_issue, Event, show_repo, create,
  back, comment, toggle_state, select, listed, created, got_issue, got_comments, commented, toggled,
  split_effects, split_step, detail_step, toggle_request, has_issue, has_number, or_nil, at_screen,
  step,
}

-- An issue or a comment has a text without blanks around it, and is for the repository that the split is
-- about; a comment is for the issue that is shown, and a change of its state is to the other state.
abbrev pub IsAsked : Issues → Request → Type 0
IsAsked s (post_issue r t b) = (r ≡ s.repo) × (t ≢ []) × (trim t ≡ t)
IsAsked s (post_comment m r n t) =
    (r ≡ s.repo)
    × (t ≢ [])
    × (trim t ≡ t)
    × ((d : Detail) × (s.detail ≡ some d) × (d.num ≡ n) × (d.mount ≡ m))
IsAsked s (patch_issue m r n c) =
    (r ≡ s.repo)
    × ((d : Detail) × (i : Issue) × (s.detail ≡ some d)
        × (d.num ≡ n)
        × (d.issue ≡ some i)
        × (c ≡ not i.closed))
IsAsked s _ = Unit

list-IsAsked : (s : Issues) (e : Event) → All (IsAsked s) (split_step s e).1
unfolding split_step
list-IsAsked s create =
    if-case (λ (r : Issues × List Request). All (IsAsked s) r.1)
      (not s.creating || eqs (trim s.title) [] || s.busy) _ _ (λ _. tt)
      (λ f.
        let (g, _) = or_neither (not s.creating || eqs (trim s.title) []) s.busy f in
        (
          (
            refl,
            eqs_nil (trim s.title) (or_neither (not s.creating) (eqs (trim s.title) []) g).1,
            trim_idem s.title,
          ),
          tt,
        ))
list-IsAsked s (select n) =
    if-case (λ (r : Issues × List Request). All (IsAsked s) r.1) (has_number (or_nil s.items) n) _ _
      (λ _. (tt, (tt, tt))) (λ _. tt)
list-IsAsked s _ = tt

toggle-IsAsked :
    (s : Issues) (d : Detail) (o : Option Issue)
    → s.detail ≡ some d
    → d.issue ≡ o
    → All (IsAsked s) (toggle_request s.repo d o)
toggle-IsAsked s d none h e = tt
toggle-IsAsked s d (some i) h e = ((refl, (d, i, h, refl, e, refl)), tt)

detail-IsAsked :
    (s : Issues) (d : Detail) (e : Event)
    → s.detail ≡ some d
    → All (IsAsked s) (detail_step s d e).1
unfolding detail_step
detail-IsAsked s d back h =
    if-case (λ (r : Issues × List Request). All (IsAsked s) r.1) (has_issue d.issue) _ _
      (λ _. (tt, tt)) (λ _. tt)
detail-IsAsked s d comment h =
    if-case (λ (r : Issues × List Request). All (IsAsked s) r.1)
      (not (has_issue d.issue) || eqs (trim d.draft) [] || d.busy) _ _ (λ _. tt)
      (λ f.
        let (g, _) = or_neither (not (has_issue d.issue) || eqs (trim d.draft) []) d.busy f in
        (
          (
            refl,
            eqs_nil (trim d.draft)
                (or_neither (not (has_issue d.issue)) (eqs (trim d.draft) []) g).1,
            trim_idem d.draft,
            (d, h, refl, refl),
          ),
          tt,
        ))
detail-IsAsked s d toggle_state h =
    if-case (λ (r : Issues × List Request). All (IsAsked s) r.1) (not (has_issue d.issue) || d.busy)
      _ _ (λ _. tt) (λ _. toggle-IsAsked s d d.issue h refl)
detail-IsAsked s d _ h = tt

screen-IsAsked :
    (s : Issues) (e : Event) (o : Option Detail)
    → s.detail ≡ o
    → All (IsAsked s) (at_screen s e o).1
unfolding at_screen
screen-IsAsked s e none h = list-IsAsked s e
screen-IsAsked s e (some d) h = detail-IsAsked s d e h

effects-IsAsked : (s : Issues) (r : Str) (o : Option Detail) → All (IsAsked s) (split_effects r o)
effects-IsAsked s r none = (tt, tt)
effects-IsAsked s r (some d) = (tt, (tt, (tt, tt)))

-- In every state and for every event: an issue is posted to the repository that the split is about, with a
-- title that is not blank and has no blanks around it. A comment is posted to the issue of that repository
-- that is open in the split, with a text of the same kind. A request that changes the state of an issue is
-- about the one that is open in the split, and asks for the state that the loaded issue does not have.
pub step-IsAsked : (s : Issues) (e : Event) → All (IsAsked s) (step s e).1
unfolding step
step-IsAsked s (show_repo r) =
    if-case (λ (u : Issues × List Request). All (IsAsked s) u.1) (eqs s.repo r) (s, []) _ (λ _. tt)
      (λ _. effects-IsAsked s r s.detail)
step-IsAsked s (listed r) = tt
step-IsAsked s (created r true) = (tt, tt)
step-IsAsked s (created r false) = tt
step-IsAsked s (got_issue m r) = tt
step-IsAsked s (got_comments m r) = tt
step-IsAsked s (commented m r n true) = (tt, (tt, tt))
step-IsAsked s (commented m r n false) = tt
step-IsAsked s (toggled m (done i)) = tt
step-IsAsked s (toggled m (failed e)) = tt
step-IsAsked s e = screen-IsAsked s e s.detail refl
