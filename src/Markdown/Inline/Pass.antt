-- ===== src/Markdown/Inline/Pass.antt =====
-- A `replace` whose matches and replacements are safe makes a safe text of a safe text.
use orchis_foundry.Prelude.{
  ℕ, Bool, true, some, [], ◌∷◌, ◌++◌, ◌≡◌, refl, arith, Str, All, Lacks, starts_with, ==_iff,
  length,
}
use orchis_foundry.Markdown.Replace.{Matcher, Steps, replace_from-inv, replace_all}
use orchis_foundry.Markdown.Inline.Tags.{plain_heads, plain_tag, Opens, any_head-keep, Opens-append}

-- What a pass has to satisfy: its matches begin with `x`, and they and what follows them are safe.
pub record IsPass (x : ℕ) (m : Matcher) (tag : Str → Bool) : Type 0 where
  pub opens_at : (s r rest : Str) → m s ≡ some (r, rest) → (a : Str) × (s ≡ x ∷ a)
  pub rest_of : (s r rest : Str) → Opens plain_tag s → m s ≡ some (r, rest) → Opens plain_tag rest
  pub safe_of : (s r rest : Str) → Opens plain_tag s → m s ≡ some (r, rest) → Opens tag r
  pub append : (q t : Str) → tag q ≡ true → tag (q ++ t) ≡ true
  pub plain : (q : Str) → plain_tag q ≡ true → tag q ≡ true

module _ (x : ℕ) (m : Matcher) (tag : Str → Bool) (pass : IsPass x m tag)
    (outside : All (Lacks x) plain_heads) where
  -- The output is safe, and keeps every front that holds no `x`.
  abbrev Kept : Str → Str → Type 0
  Kept s t = Opens tag t × ((p : Str) → Lacks x p → starts_with p s ≡ true → starts_with p t ≡ true)

  Kept-stop : (s : Str) → Opens plain_tag s → Kept s s
  Kept-stop [] h = (tt, λ p _ e. e)
  Kept-stop (c ∷ s) (h, hs) = ((λ e. pass.plain s (h e), (Kept-stop s hs).0), λ p _ e. e)

  Kept-keep : (c : ℕ) (s t : Str) → Opens plain_tag (c ∷ s) → Kept s t → Kept (c ∷ s) (c ∷ t)
  unfolding starts_with
  Kept-keep c s t (h, hs) (safe, front) =
      ((λ e. pass.plain t (any_head-keep plain_heads x s t outside front (h e)), safe), front')
    where
      front' : (p : Str) → Lacks x p → starts_with p (c ∷ s) ≡ true → starts_with p (c ∷ t) ≡ true
      front' [] _ e = refl
      front' (d ∷ p) (_, l) e = ground (arith, front p l)

  Kept-match :
      (s r rest t : Str) → Opens plain_tag s → m s ≡ some (r, rest) → Kept rest t → Kept s (r ++ t)
  unfolding starts_with
  Kept-match s r rest t h e (safe, _) =
      (Opens-append tag pass.append r t (pass.safe_of s r rest h e) safe, front)
    where
      front : (p : Str) → Lacks x p → starts_with p s ≡ true → starts_with p (r ++ t) ≡ true
      front [] _ f = refl
      front (d ∷ p) (ne, l) f = let (a, ea) = pass.opens_at s r rest e in ground (arith, ==_iff d x)

  -- A pass over a safe text leaves a safe text.
  pub replace_all-Opens : (s : Str) → Opens plain_tag s → Opens tag (replace_all m s)
  unfolding replace_all
  replace_all-Opens s h = (replace_from-inv m (Opens plain_tag) Kept steps (length s) s h).0
    where
      steps : Steps m (Opens plain_tag) Kept
      steps = record {
        stop = Kept-stop;
        tail = λ c s h. h.1;
        keep = Kept-keep;
        rest_of = pass.rest_of;
        match_of = Kept-match;
      }
