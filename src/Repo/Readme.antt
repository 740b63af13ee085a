-- ===== src/Repo/Readme.antt =====
-- `ReadmeView`: the README of a repository, and what the Markdown renderer makes of it. A request has a
-- number, in place of the flag `cancelled`; the mock README is given.
pub mod Answered
use orchis_foundry.Prelude.{
  ℕ, suc, Bool, true, false, Option, none, some, List, [], ◌∷◌, if◌then◌else◌, ◌==◌, Str, eqs,
}
use orchis_foundry.Api.{Result, done, failed}
use orchis_foundry.Markdown.Blocks.{Block, parse_md}

pub record Readme : Type 0 where
  pub repo : Str
  pub md : Option Str
  pub asked : ℕ

pub data Request : Type 0 where
  get_readme : ℕ → Str → Request

-- The content of an answer, where it has one.
pub data Event : Type 0 where
  show : Str → Event
  got_readme : ℕ → Result (Option Str) → Event

abbrev content_of : Option Str → Str
content_of none = []
content_of (some s) = s

abbrev md_of : Result (Option Str) → Option Str
md_of (done o) = some (content_of o)
md_of (failed e) = none

abbrev pub mounted : Str → Readme × List Request
mounted repo = (record { repo = repo; md = none; asked = 0 }, get_readme 0 repo ∷ [])

unfoldable pub step : Readme → Event → Readme × List Request
unfolding eqs
step r (show repo) =
    if eqs r.repo repo
    then (r, [])
    else (record r { repo = repo; asked = suc r.asked }, get_readme (suc r.asked) repo ∷ [])
step r (got_readme n a) = (if n == r.asked then record r { md = md_of a } else r, [])

abbrev pub or_mock : Str → Option Str → Str
or_mock mock none = mock
or_mock mock (some s) = s

-- The blocks that are drawn; none where there is no README.
pub drawn : Str → Readme → Option (List Block)
unfolding eqs parse_md
drawn mock r = if eqs (or_mock mock r.md) [] then none else some (parse_md (or_mock mock r.md))
