-- ===== src/Markdown/Inline/Tags.antt =====
-- What a trusted tag is, and texts in which every `<` opens one.
use orchis_foundry.Prelude.{
  ℕ, Bool, true, false, ◌&&◌, ◌||◌, List, [], ◌∷◌, ◌++◌, ◌≡◌, refl, arith, Str, codes, All, Lacks,
  starts_with, starts_with-append, starts_with-before, drop, is_space, trim, Bool-cases, inl, inr,
  length, ==_iff, trim-Trimmed, ◌==◌, if◌then◌else◌,
}
use orchis_foundry.Markdown.Inline.{
  url_ok, starts_with_ci, code_open, code_close, anchor_open, anchor_attrs,
}

-- One of the given texts stands at the front.
abbrev any_head : List Str → Str → Bool
any_head [] q = false
any_head (h ∷ hs) q = starts_with h q || any_head hs q

-- How the tags of code and bold text go on behind their `<`.
abbrev pub plain_heads : List Str
plain_heads =
    codes "code style=\"font-family:" ∷ codes "/code>" ∷ codes "strong>" ∷ codes "/strong>" ∷ []

abbrev pub plain_tag : Str → Bool
plain_tag q = any_head plain_heads q

-- An anchor whose URL passes the test of `inlineMd`.
abbrev anchor_tag : Str → Bool
anchor_tag q = starts_with (codes "a href=\"") q && url_ok (drop 8 q)

abbrev pub trusted_tag : Str → Bool
trusted_tag q = plain_tag q || starts_with (codes "/a>") q || anchor_tag q

-- Behind every `<` stands a text that passes `tag`.
abbrev pub Opens : (Str → Bool) → Str → Type 0
Opens tag [] = Unit
Opens tag (c ∷ s) = (c ≡ b'<' → tag s ≡ true) × Opens tag s

abbrev pub IsSafe : Str → Type 0
IsSafe = Opens trusted_tag

any_head-append : (hs : List Str) (q t : Str) → any_head hs q ≡ true → any_head hs (q ++ t) ≡ true
any_head-append [] q t h = cc
any_head-append (p ∷ hs) q t h = ground (arith, starts_with-append p q t, any_head-append hs q t)

any_head-before :
    (hs : List Str) (q : Str) (x : ℕ) (t : Str)
    → All (Lacks x) hs
    → any_head hs (q ++ x ∷ t) ≡ true
    → any_head hs q ≡ true
any_head-before [] q x t lacks h = cc
any_head-before (p ∷ hs) q x t (l, ls) h =
    ground (arith, starts_with-before p q x t l, any_head-before hs q x t ls)

pub any_head-keep :
    (hs : List Str) (x : ℕ) (s t : Str)
    → All (Lacks x) hs
    → ((p : Str) → Lacks x p → starts_with p s ≡ true → starts_with p t ≡ true)
    → any_head hs s ≡ true
    → any_head hs t ≡ true
any_head-keep [] x s t lacks keep h = cc
any_head-keep (p ∷ hs) x s t (l, ls) keep h =
    ground (arith, keep p l, any_head-keep hs x s t ls keep)

pub plain_tag-append : (q t : Str) → plain_tag q ≡ true → plain_tag (q ++ t) ≡ true
plain_tag-append = any_head-append plain_heads

starts_with_ci-append : (p s t : Str) → starts_with_ci p s ≡ true → starts_with_ci p (s ++ t) ≡ true
unfolding starts_with_ci
starts_with_ci-append [] s t h = refl
starts_with_ci-append (p ∷ ps) [] t h = cc
starts_with_ci-append (p ∷ ps) (c ∷ s) t h = ground (arith, starts_with_ci-append ps s t)

url_ok-append : (u t : Str) → url_ok u ≡ true → url_ok (u ++ t) ≡ true
unfolding url_ok
url_ok-append u t h = ground (
  arith,
  starts_with_ci-append (codes "http://") u t,
  starts_with_ci-append (codes "https://") u t,
  starts_with_ci-append (codes "/") u t,
)

drop-append_of_starts_with :
    (p s t : Str) → starts_with p s ≡ true → drop (length p) (s ++ t) ≡ drop (length p) s ++ t
unfolding starts_with
drop-append_of_starts_with [] s t h = refl
drop-append_of_starts_with (p ∷ ps) [] t h = cc
drop-append_of_starts_with (p ∷ ps) (c ∷ s) t h = ground (arith, drop-append_of_starts_with ps s t)

anchor_tag-append : (q t : Str) → anchor_tag q ≡ true → anchor_tag (q ++ t) ≡ true
anchor_tag-append q t h = elim (Bool-cases (starts_with (codes "a href=\"") q)) [
  | inl e ↦ ground (
    arith,
    starts_with-append (codes "a href=\"") q t e,
    drop-append_of_starts_with (codes "a href=\"") q t e,
    url_ok-append (drop 8 q) t,
  )
  | inr e ↦ ground arith
]

pub trusted_tag-append : (q t : Str) → trusted_tag q ≡ true → trusted_tag (q ++ t) ≡ true
trusted_tag-append q t h =
    ground
      (arith, plain_tag-append q t, starts_with-append (codes "/a>") q t, anchor_tag-append q t)

module _ (tag : Str → Bool) where
  pub Opens-append :
      ((q t : Str) → tag q ≡ true → tag (q ++ t) ≡ true)
      → (s t : Str) → Opens tag s
      → Opens tag t
      → Opens tag (s ++ t)
  Opens-append mono [] t hs ht = ht
  Opens-append mono (c ∷ s) t (h, hs) ht = (λ e. mono s t (h e), Opens-append mono s t hs ht)

  pub Opens-right : (s t : Str) → Opens tag (s ++ t) → Opens tag t
  Opens-right [] t h = h
  Opens-right (c ∷ s) t (_, h) = Opens-right s t h

  pub Opens-of_Lacks : (s : Str) → Lacks b'<' s → Opens tag s
  Opens-of_Lacks [] h = tt
  Opens-of_Lacks (c ∷ s) (ne, h) = (λ e. absurd (ne e), Opens-of_Lacks s h)

pub IsSafe-of_plain : (s : Str) → Opens plain_tag s → IsSafe s
IsSafe-of_plain [] h = tt
IsSafe-of_plain (c ∷ s) (h, hs) = (λ e. ground (arith, h e), IsSafe-of_plain s hs)

-- A text that is cut at a unit which no head holds stays safe.
pub Opens-before :
    (s : Str) (x : ℕ) (t : Str)
    → All (Lacks x) plain_heads
    → Opens plain_tag (s ++ x ∷ t)
    → Opens plain_tag s
Opens-before [] x t lacks h = tt
Opens-before (c ∷ s) x t lacks (h, hs) =
    (λ e. any_head-before plain_heads s x t lacks (h e), Opens-before s x t lacks hs)

-- No blank ends the text.
abbrev EndsInk : Str → Type 0
EndsInk [] = Unit
EndsInk (c ∷ []) = is_space c ≡ false
EndsInk (c ∷ d ∷ s) = EndsInk (d ∷ s)

starts_with-blank :
    (c : ℕ) (p s : Str)
    → EndsInk (c ∷ p)
    → All (λ d. is_space d ≡ true) s
    → starts_with (c ∷ p) s ≡ true
    → ⊥
unfolding starts_with
starts_with-blank c p [] ink blank h = cc
starts_with-blank c [] (d ∷ s) ink (b, bs) h = ground (arith, ==_iff c d)
starts_with-blank c (e ∷ p) (d ∷ s) ink (b, bs) h = ground (arith, starts_with-blank e p s ink bs)

starts_with-trimmed :
    (p s t : Str)
    → EndsInk p
    → All (λ d. is_space d ≡ true) t
    → starts_with p (s ++ t) ≡ true
    → starts_with p s ≡ true
unfolding starts_with
starts_with-trimmed [] s t ink blank h = refl
starts_with-trimmed (c ∷ p) [] t ink blank h = absurd (starts_with-blank c p t ink blank h)
starts_with-trimmed (c ∷ []) (d ∷ s) t ink blank h = ground arith
starts_with-trimmed (c ∷ e ∷ p) (d ∷ s) t ink blank h =
    ground (arith, starts_with-trimmed (e ∷ p) s t ink blank)

any_head-trimmed :
    (hs : List Str) (q t : Str)
    → All EndsInk hs
    → All (λ d. is_space d ≡ true) t
    → any_head hs (q ++ t) ≡ true
    → any_head hs q ≡ true
any_head-trimmed [] q t ink blank h = cc
any_head-trimmed (p ∷ hs) q t (i, is) blank h =
    ground (arith, starts_with-trimmed p q t i blank, any_head-trimmed hs q t is blank)

Opens-trimmed :
    (s t : Str) → All (λ d. is_space d ≡ true) t → Opens plain_tag (s ++ t) → Opens plain_tag s
unfolding is_space
Opens-trimmed [] t blank h = tt
Opens-trimmed (c ∷ s) t blank (h, hs) = (
  λ e. any_head-trimmed plain_heads s t (refl, (refl, (refl, (refl, tt)))) blank (h e),
  Opens-trimmed s t blank hs,
)

pub Opens-trim : (s : Str) → Opens plain_tag s → Opens plain_tag (trim s)
Opens-trim s h =
    let p = trim-Trimmed s in
    Opens-trimmed (trim s) p.after p.blank
      (Opens-right plain_tag p.before (trim s ++ p.after) (rw (p.splits) at h))

-- `Opens` at a given text, by evaluation.
opens_check : (Str → Bool) → Str → Bool
opens_check tag [] = true
opens_check tag (c ∷ s) = (if c == b'<' then tag s else true) && opens_check tag s

opens_check_sound : (tag : Str → Bool) (s : Str) → opens_check tag s ≡ true → Opens tag s
unfolding opens_check
opens_check_sound tag [] h = tt
opens_check_sound tag (c ∷ s) h =
    ((λ e. ground (arith, (==_iff c b'<').1 e)), opens_check_sound tag s (ground arith))

pub code_open-Opens : Opens plain_tag code_open × Opens plain_tag code_close
unfolding opens_check starts_with
code_open-Opens =
    (opens_check_sound plain_tag code_open refl, opens_check_sound plain_tag code_close refl)

pub strong-Opens : Opens plain_tag (codes "<strong>") × Opens plain_tag (codes "</strong>")
unfolding opens_check starts_with
strong-Opens = (
  opens_check_sound plain_tag (codes "<strong>") refl,
  opens_check_sound plain_tag (codes "</strong>") refl,
)

pub anchor_end-IsSafe : IsSafe anchor_attrs × IsSafe (codes "</a>")
unfolding opens_check starts_with
anchor_end-IsSafe = (
  opens_check_sound trusted_tag anchor_attrs refl,
  opens_check_sound trusted_tag (codes "</a>") refl,
)

anchor_tail-IsSafe : IsSafe (codes "a href=\"")
unfolding opens_check starts_with
anchor_tail-IsSafe = opens_check_sound trusted_tag (codes "a href=\"") refl

-- An anchor is opened by a URL that passes the test.
pub anchor_open-IsSafe :
    (u t : Str) → url_ok u ≡ true → IsSafe (u ++ t) → IsSafe (anchor_open ++ u ++ t)
unfolding starts_with
anchor_open-IsSafe u t ok h = (
  (λ _. rw (url_ok-append u t ok) refl),
  Opens-append trusted_tag trusted_tag-append (codes "a href=\"") (u ++ t) anchor_tail-IsSafe h,
)
