-- ===== src/NewPull/Title.antt =====
-- Who writes the title of the new pull request.
use orchis_foundry.Prelude.{
  true, ◌&&◌, Option, none, some, List, [], ◌∷◌, if-case, ◌≡◌, ◌∙◌, refl, arith, All, session, Str,
  eqs,
}
use orchis_foundry.Api.{Result, done, failed}
use orchis_foundry.NewPull.{
  NewPull, Request, Event, pick_repo, pick_base, pick_head, type_title, type_body, type_reviewer,
  create, repos_got, branches_got, compared, created, reviewed, compare_effect, settled, picked,
  takes, took, create_step, with_base, branched, default_of, or_nil, step, Comparison,
}

abbrev pub IsOther : Event → Type 0
IsOther (type_title t) = ⊥
IsOther _ = Unit

-- The title, and that the user has typed it.
abbrev Keeps : NewPull → NewPull → Type 0
Keeps s t = (t.title ≡ s.title) × (t.title_touched ≡ true)

effect-Keeps : (s t : NewPull) → Keeps s t → Keeps s (compare_effect t).0
unfolding compare_effect
effect-Keeps s t k = ground arith

settled-Keeps : (s t : NewPull) → Keeps s t → Keeps s (settled s t).0
unfolding settled
settled-Keeps s t k =
    if-case (λ (r : NewPull × List Request). Keeps s r.0)
      (eqs s.repo t.repo && eqs s.base t.base && eqs s.head t.head) _ _ (λ _. k)
      (λ _. effect-Keeps s t k)

with_base-Keeps : (s t : NewPull) (o : Option Str) → Keeps s t → Keeps s (with_base t o)
with_base-Keeps s t none k = k
with_base-Keeps s t (some b) k = k

took-Keeps : (s : NewPull) (r : Result Comparison) → s.title_touched ≡ true → Keeps s (took s r)
unfolding took
took-Keeps s (done c) h = (rw h refl, h)
took-Keeps s (failed e) h = (refl, h)

step-Keeps :
    (first : Str) (s : NewPull) (e : Event)
    → s.title_touched ≡ true
    → IsOther e
    → Keeps s (step first s e).0
unfolding step picked create_step
step-Keeps first s (pick_repo r) h o =
    if-case (λ (u : NewPull × List Request). Keeps s u.0) (eqs first []) _ _
      (λ _. settled-Keeps s _ (refl, h)) (λ _. (refl, h))
step-Keeps first s (pick_base b) h o =
    if-case (λ (u : NewPull × List Request). Keeps s u.0) (eqs s.repo []) _ _ (λ _. (refl, h))
      (λ _. settled-Keeps s _ (refl, h))
step-Keeps first s (pick_head b) h o =
    if-case (λ (u : NewPull × List Request). Keeps s u.0) (eqs s.repo []) _ _ (λ _. (refl, h))
      (λ _. settled-Keeps s _ (refl, h))
step-Keeps first s (type_title t) h o = absurd o
step-Keeps first s (type_body t) h o = ground arith
step-Keeps first s (type_reviewer t) h o = ground arith
step-Keeps first s create h o = ground arith
step-Keeps first s (repos_got (done l)) h o = (refl, h)
step-Keeps first s (repos_got (failed e)) h o = (refl, h)
step-Keeps first s (branches_got r (done l)) h o =
    settled-Keeps s (branched s (or_nil l))
      (with_base-Keeps s (record s { branches = or_nil l }) (default_of (or_nil l)) (refl, h))
step-Keeps first s (branches_got r (failed e)) h o = (refl, h)
step-Keeps first s (compared n r) h o =
    if-case (Keeps s) (takes s n) (took s r) s (λ _. took-Keeps s r h) (λ _. (refl, h))
step-Keeps first s (created r v (done i)) h o = (refl, h)
step-Keeps first s (created r v (failed e)) h o = (refl, h)
step-Keeps first s (reviewed r i) h o = (refl, h)

-- A title that the user has typed stays until the user types another.
session-title :
    (first : Str) (es : List Event) (s : NewPull)
    → s.title_touched ≡ true
    → All IsOther es
    → (session (step first) s es).0.title ≡ s.title
unfolding session
session-title first [] s h o = refl
session-title first (e ∷ es) s h (now, o) =
    let (t, k) = step-Keeps first s e h now in session-title first es (step first s e).0 k o ∙ t
