-- ===== src/Repo/Readme/Answered.antt =====
-- What is drawn of a README.
use orchis_foundry.Prelude.{
  ℕ, Option, none, some, List, [], if-case, ◌==◌, ==_iff, Bool-cases, inl, inr, ◌≡◌, ◌≢◌, refl, All,
  Str, eqs,
}
use orchis_foundry.Api.{Result}
use orchis_foundry.Markdown.Blocks.{Block}
use orchis_foundry.Markdown.Blocks.Laws.{IsSafeBlock, parse_md-IsSafe}
use orchis_foundry.Repo.Readme.{Readme, got_readme, or_mock, step, drawn}

abbrev IsSafeDrawn : Option (List Block) → Type 0
IsSafeDrawn none = Unit
IsSafeDrawn (some bs) = All IsSafeBlock bs

-- An answer to an earlier request changes nothing, and after any answer what is drawn is safe, whatever the
-- server has sent.
drawn-IsSafe :
    (mock : Str) (r : Readme) (n : ℕ) (a : Result (Option Str))
    → (n ≢ r.asked → (step r (got_readme n a)).0 ≡ r)
      × IsSafeDrawn (drawn mock (step r (got_readme n a)).0)
unfolding step drawn
drawn-IsSafe mock r n a = (
  λ ne. elim (Bool-cases (n == r.asked)) [
    | inl t ↦ absurd (ne ((==_iff n r.asked).0 t))
    | inr f ↦ rw f refl
  ],
  if-case IsSafeDrawn (eqs (or_mock mock (step r (got_readme n a)).0.md) []) none _ (λ _. tt)
      (λ _. parse_md-IsSafe (or_mock mock (step r (got_readme n a)).0.md)),
)
