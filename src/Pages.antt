-- ===== src/Pages.antt =====
-- `CommitView` of web/src/views/commit.jsx and `UserProfileView` of web/src/views/user.jsx: a page that asks
-- for what its route names. An answer does not say what it was asked for.
pub mod Answered
use orchis_foundry.Prelude.{
  Bool, true, false, not, ◌&&◌, ◌||◌, Option, none, some, List, [], ◌∷◌, if◌then◌else◌, Str, eqs,
}
use orchis_foundry.Api.{Result, done, failed}

-- `A` is what the server sends, `K` what the route names.
pub record RoutePage (K A : Type 0) : Type 0 where
  pub key : K
  pub content : Option A
  pub err : Bool

pub data Event (K A : Type 0) : Type 0 where
  show : K → Event K A
  got : Result A → Event K A

-- Whether two routes name the same, and whether one names nothing.
module _ {K A : Type 0} (same : K → K → Bool) (is_blank : K → Bool) where
  -- The effect on what the route names.
  pub asked : RoutePage K A → RoutePage K A × List K
  asked p =
      if is_blank p.key then (p, []) else (record p { content = none; err = false }, p.key ∷ [])

  unfoldable pub step : RoutePage K A → Event K A → RoutePage K A × List K
  unfolding asked
  step p (show k) = if same p.key k then (p, []) else asked (record p { key = k })
  step p (got (done a)) = (record p { content = some a }, [])
  step p (got (failed e)) = (record p { err = true }, [])

  abbrev pub mounted : K → RoutePage K A × List K
  mounted k = asked (record { key = k; content = none; err = false })

-- What is drawn: the error, the text that it is loaded, and the content, each where it is there.
pub record Drawn (A : Type 0) : Type 0 where
  pub not_found : Bool
  pub loading : Bool
  pub content : Option A

abbrev has_content : {A : Type 0} → Option A → Bool
has_content none = false
has_content (some a) = true

abbrev pub drawn : {K A : Type 0} → RoutePage K A → Drawn A
drawn p = record {
  not_found = p.err;
  loading = not (has_content p.content) && not p.err;
  content = p.content;
}

-- The repository and the hash of a commit; the handle of a user.
abbrev pub same_commit : Str × Str → Str × Str → Bool
same_commit a b = eqs a.0 b.0 && eqs a.1 b.1

abbrev pub no_commit : Str × Str → Bool
no_commit a = eqs a.0 [] || eqs a.1 []

abbrev no_handle : Str → Bool
no_handle h = eqs h []
