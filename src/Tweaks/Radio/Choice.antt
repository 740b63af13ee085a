-- ===== src/Tweaks/Radio/Choice.antt =====
-- That the dropdown gives the values of the options, and not their texts.
use orchis_foundry.Prelude.{
  false, List, [], ◌∷◌, ◌≡◌, refl, All, All-In, In, inl, inr, eqs, eqs_refl,
}
use orchis_foundry.Tweaks.Radio.{TweakOption, value_of, string_of, resolve}

-- The texts of two options differ.
abbrev pub IsApart : List TweakOption → Type 0
IsApart [] = Unit
IsApart (o ∷ os) =
    All (λ p. eqs (string_of (value_of o)) (string_of (value_of p)) ≡ false) os × IsApart os

-- An option that is chosen by its text is given with its own value, be it a text, a number or a truth
-- value, where no two options have the same text.
pub resolve-string_of :
    (os : List TweakOption) (o : TweakOption)
    → IsApart os
    → In o os
    → resolve os (string_of (value_of o)) ≡ value_of o
unfolding resolve
resolve-string_of [] o h i = absurd i.lower
resolve-string_of (p ∷ os) o (now, h) (inl e) = rw (e, eqs_refl (string_of (value_of p))) refl
resolve-string_of (p ∷ os) o (now, h) (inr i) =
    rw (All-In (λ q. eqs (string_of (value_of p)) (string_of (value_of q)) ≡ false) os o now i)
      (resolve-string_of os o h i)
