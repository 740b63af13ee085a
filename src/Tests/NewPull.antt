-- ===== src/Tests/NewPull.antt =====
-- The new pull request at a concrete session.
use orchis_foundry.Prelude.{
  true, some, List, [], ◌∷◌, ◌++◌, ◌≡◌, refl, inl, inr, In, codes, session,
}
use orchis_foundry.Api.{done}
use orchis_foundry.NewPull.{
  Branch, Pair, Comparison, get_compare, Event, branches_got, pick_head, compared, mounted, step,
  takes, compare_effect, repo_effects, settled, can_compare, took,
}
use orchis_foundry.NewPull.Compared.{selection, session-compared}

compares : Unit {0}
unfolding session mounted step takes compare_effect repo_effects settled can_compare took
compares = tt

abbrev main : Branch
main = record { name = codes "main"; is_default = true }

-- The branches come, and the head is picked twice.
abbrev picks : List Event
picks =
    branches_got (codes "me/a") (done (some (main ∷ [])))
    ∷ pick_head (codes "dev")
    ∷ pick_head (codes "fix")
    ∷ []

abbrev fix_pair : Pair
fix_pair = record { repo = codes "me/a"; base = codes "main"; head = codes "fix" }

asked_last : In (get_compare 4 fix_pair) (
    (mounted (codes "me/a") []).1
    ++ (session (step (codes "me/a")) (mounted (codes "me/a") []).0 picks).1)
unfolding compares
asked_last = inr (inr (inl refl))

taken_last : takes (session (step (codes "me/a")) (mounted (codes "me/a") []).0 picks).0 4 ≡ true
unfolding compares
taken_last = refl

session-compared_example :
    fix_pair ≡ selection (session (step (codes "me/a")) (mounted (codes "me/a") []).0 picks).0
session-compared_example = session-compared (codes "me/a") [] picks 4 fix_pair asked_last taken_last

abbrev two_ahead : Comparison
two_ahead = record { ahead_by = 2; messages = codes "one" ∷ codes "two" ∷ [] }

-- The comparison with the head before is shown until the new one comes.
stale_comparison :
    (session (step (codes "me/a")) (mounted (codes "me/a") []).0 (
      branches_got (codes "me/a") (done (some (main ∷ [])))
      ∷ pick_head (codes "dev")
      ∷ compared 3 (done two_ahead)
      ∷ pick_head (codes "fix")
      ∷ [])).0.cmp
    ≡ some two_ahead
unfolding compares
stale_comparison = refl
