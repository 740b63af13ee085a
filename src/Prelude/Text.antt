-- ===== src/Prelude/Text.antt =====
-- JavaScript strings as lists of UTF-16 code units, and the string functions that the views call:
-- `===`, `startsWith`, `indexOf`, `includes`, `trim`, `split("\n")`, `join("\n")`.
use Prim.Native.Nat.{ℕ, ◌≤◌}
use Prim.Native.Char.{code}
use Prim.Native.String.{String}
use mathlib.Core.Path.{◌≡◌, refl}
use mathlib.Core.Logic.{◌≢◌, ◌↔◌}
use mathlib.Core.Bool.{Bool, true, false, ◌&&◌, ◌||◌}
use mathlib.Core.List.{List, [], ◌∷◌, ◌++◌}
use native.Mathlib.Omega.{arith}
use orchis_foundry.Prelude.Tests.{leb, ◌==◌, if◌then◌else◌, Bool-cases}
use mathlib.Core.Logic.{◌⊎◌, inl, inr}
use mathlib.Core.Path.{ap, sym, ◌∙◌}
use orchis_foundry.Prelude.Lists.{All, length}

abbrev pub Str : Type 0
Str = List ℕ

-- A literal; its code points are its code units, since none lies beyond the basic plane.
abbrev pub codes : String → Str
codes String.[] = []
codes (String.◌∷◌ c s) = code c ∷ codes s

abbrev pub Lacks : ℕ → Str → Type 0
Lacks b = All (λ c. c ≢ b)

-- `a === b` on strings.
unfoldable pub eqs : Str → Str → Bool
eqs [] [] = true
eqs (x ∷ xs) (y ∷ ys) = x == y && eqs xs ys
eqs _ _ = false

-- `list.includes(s)`.
unfoldable pub includes : List Str → Str → Bool
unfolding eqs
includes [] s = false
includes (p ∷ ps) s = if eqs p s then true else includes ps s

pub eqs_iff : (a b : Str) → (eqs a b ≡ true) ↔ (a ≡ b)
unfolding eqs
eqs_iff (x ∷ a) (y ∷ b) = ground (arith, eqs_iff a b)
eqs_iff _ _ = ground arith

pub eqs_nil : (s : Str) → eqs s [] ≡ false → s ≢ []
eqs_nil s f q = cc ((eqs_iff s []).1 q, f)

pub eqs_refl : (a : Str) → eqs a a ≡ true
eqs_refl a = (eqs_iff a a).1 refl

pub eqs_sym : (a b : Str) → eqs a b ≡ eqs b a
eqs_sym a b = elim (Bool-cases (eqs a b)) [
  | inl t ↦ t ∙ sym ((eqs_iff b a).1 (sym ((eqs_iff a b).0 t)))
  | inr f ↦ elim (Bool-cases (eqs b a)) [
    | inl t ↦ cc ((eqs_iff a b).1 (sym ((eqs_iff b a).0 t)))
    | inr g ↦ f ∙ sym g
  ]
]

pub includes-append :
    (l r : List Str) (q : Str) → includes (l ++ r) q ≡ (if includes l q then true else includes r q)
unfolding includes
includes-append [] r q = refl
includes-append (x ∷ l) r q = ground (arith, includes-append l r q)

pub includes-one : (path q : Str) → includes (path ∷ []) q ≡ eqs path q
unfolding includes
includes-one path q = ground arith

-- `s.startsWith(p)`, the prefix first.
unfoldable pub starts_with : Str → Str → Bool
starts_with [] s = true
starts_with (p ∷ ps) [] = false
starts_with (p ∷ ps) (c ∷ s) = p == c && starts_with ps s

pub starts_with-append : (p s t : Str) → starts_with p s ≡ true → starts_with p (s ++ t) ≡ true
unfolding starts_with
starts_with-append [] s t h = refl
starts_with-append (p ∷ ps) [] t h = cc
starts_with-append (p ∷ ps) (c ∷ s) t h = ground (arith, starts_with-append ps s t)

-- A prefix that lacks `x` ends before the first `x`.
pub starts_with-before :
    (p s : Str) (x : ℕ) (t : Str)
    → Lacks x p
    → starts_with p (s ++ x ∷ t) ≡ true
    → starts_with p s ≡ true
unfolding starts_with
starts_with-before [] s x t _ h = refl
starts_with-before (p ∷ ps) [] x t lacks h = ground arith
starts_with-before (p ∷ ps) (c ∷ s) x t lacks h = ground (arith, starts_with-before ps s x t)

starts_with_self : (p s : Str) → starts_with p (p ++ s) ≡ true
unfolding starts_with
starts_with_self [] s = refl
starts_with_self (p ∷ ps) s = ground (arith, starts_with_self ps s)

-- White space and line ends, as `trim` and `\s` read them.
unfoldable pub is_space : ℕ → Bool
is_space c =
    (leb 9 c && leb c 13)
    || c == 32
    || c == 0xa0
    || c == 0x1680
    || (leb 0x2000 c && leb c 0x200a)
    || c == 0x2028
    || c == 0x2029
    || c == 0x202f
    || c == 0x205f
    || c == 0x3000
    || c == 0xfeff

unfoldable pub trim_start : Str → Str
unfolding is_space
trim_start [] = []
trim_start (c ∷ s) = if is_space c then trim_start s else c ∷ s

-- A blank is dropped when nothing but blanks stands behind it.
unfoldable trim_end : Str → Str
unfolding is_space
trim_end [] = []
trim_end (c ∷ s) = elim (trim_end s) [ [] ↦ if is_space c then [] else c ∷ [] | d ∷ r ↦ c ∷ d ∷ r ]

-- `s.trim()`.
unfoldable pub trim : Str → Str
unfolding trim_start trim_end
trim s = trim_end (trim_start s)

-- The longest front whose code units fail `stop`, and what stands behind it: `[^…]*` of a pattern.
unfoldable pub until {ℓ} : {A : Type ℓ} → (A → Bool) → List A → List A × List A
until stop [] = ([], [])
until stop (c ∷ s) = if stop c then ([], c ∷ s) else (c ∷ (until stop s).0, (until stop s).1)

pub until-append {ℓ} :
    {A : Type ℓ} (stop : A → Bool) (s : List A) → (until stop s).0 ++ (until stop s).1 ≡ s
unfolding until
until-append stop [] = refl
until-append stop (c ∷ s) = ground (arith, until-append stop s)

-- What `trim` takes off: blanks on either side.
pub record Trimmed (s t : Str) : Type 0 where
  pub before : Str
  pub after : Str
  pub splits : s ≡ before ++ (t ++ after)
  pub blank : All (λ c. is_space c ≡ true) after

trim_end-parts :
    (s : Str) → (after : Str) × (s ≡ trim_end s ++ after) × All (λ c. is_space c ≡ true) after
unfolding trim_end
trim_end-parts [] = ([], refl, tt)
trim_end-parts (c ∷ s) = go (trim_end-parts s) (trim_end s) refl (Bool-cases (is_space c))
  where
    go :
        (after : Str) × (s ≡ trim_end s ++ after) × All (λ c. is_space c ≡ true) after
        → (r : Str) → trim_end s ≡ r
        → (is_space c ≡ true) ⊎ (is_space c ≡ false)
        → (after : Str) × (c ∷ s ≡ trim_end (c ∷ s) ++ after) × All (λ c. is_space c ≡ true) after
    go (a, e, b) [] er (inl sp) = (c ∷ a, ground arith, (sp, b))
    go (a, e, b) [] er (inr ink) = (a, ground arith, b)
    go (a, e, b) (d ∷ r) er _ = (a, ground arith, b)

trim_start-parts : (s : Str) → (before : Str) × (s ≡ before ++ trim_start s)
unfolding trim_start
trim_start-parts [] = ([], refl)
trim_start-parts (c ∷ s) = elim (Bool-cases (is_space c)) [
  | inl sp ↦ (c ∷ (trim_start-parts s).0, ground (arith, (trim_start-parts s).1))
  | inr ink ↦ ([], ground arith)
]

pub trim-Trimmed : (s : Str) → Trimmed s (trim s)
unfolding trim
trim-Trimmed s =
    let (b, eb) = trim_start-parts s in
    let (a, ea, blanks) = trim_end-parts (trim_start s) in
    record { before = b; after = a; splits = eb ∙ ap (b ++◌) ea; blank = blanks }

pub until-stop {ℓ} :
    {A : Type ℓ} (stop : A → Bool) (s : List A) {d : A} {r : List A}
    → (until stop s).1 ≡ d ∷ r
    → stop d ≡ true
unfolding until
until-stop stop [] h = cc
until-stop stop (c ∷ s) {d} {r} h = elim (Bool-cases (stop c)) [
  | inl e ↦ ground arith
  | inr e ↦ ground (arith, until-stop stop s {d = d} {r = r})
]

pub length-until {ℓ} :
    {A : Type ℓ} (stop : A → Bool) (s : List A) → length (until stop s).1 ≤ length s
unfolding until
length-until stop [] = omega arith
length-until stop (c ∷ s) = ground (arith, length-until stop s)

trim_start-head : (s : Str) {c : ℕ} {r : Str} → trim_start s ≡ c ∷ r → is_space c ≡ false
unfolding trim_start
trim_start-head [] h = cc
trim_start-head (d ∷ s) h = elim (Bool-cases (is_space d)) [
  | inl sp ↦ trim_start-head s (rw sp at h)
  | inr ink ↦ cc (ink, rw ink at h)
]

trim_end_ink : (c : ℕ) (s : Str) → is_space c ≡ false → trim_end (c ∷ s) ≡ c ∷ trim_end s
unfolding trim_end
trim_end_ink c s ink = ground arith

trim_start_ink : (c : ℕ) (s : Str) → is_space c ≡ false → trim_start (c ∷ s) ≡ c ∷ s
unfolding trim_start
trim_start_ink c s ink = rw ink refl

trim_end_blank : (c : ℕ) (s : Str) → is_space c ≡ true → trim_end s ≡ [] → trim_end (c ∷ s) ≡ []
unfolding trim_end
trim_end_blank c s sp e = ground arith

trim_end_keep :
    (c : ℕ) (s : Str) {d : ℕ} {r : Str} → trim_end s ≡ d ∷ r → trim_end (c ∷ s) ≡ c ∷ d ∷ r
unfolding trim_end
trim_end_keep c s e = rw e refl

trim_end_nil : trim_end [] ≡ []
unfolding trim_end
trim_end_nil = refl

trim_end_idem : (s : Str) → trim_end (trim_end s) ≡ trim_end s
trim_end_idem [] = ap trim_end trim_end_nil
trim_end_idem (c ∷ s) = go (trim_end s) refl (trim_end_idem s) (Bool-cases (is_space c))
  where
    go :
        (r : Str)
        → trim_end s ≡ r
        → trim_end (trim_end s) ≡ trim_end s
        → (is_space c ≡ true) ⊎ (is_space c ≡ false)
        → trim_end (trim_end (c ∷ s)) ≡ trim_end (c ∷ s)
    go [] e again (inl sp) = rw (trim_end_blank c s sp e) trim_end_nil
    go [] e again (inr ink) =
        rw (trim_end_ink c s ink, e) (trim_end_ink c [] ink ∙ ap (c ∷◌) trim_end_nil)
    go (d ∷ r) e again _ = rw (trim_end_keep c s e) (trim_end_keep c (d ∷ r) (rw e at again))

trim_start_nil : trim_start [] ≡ []
unfolding trim_start
trim_start_nil = refl

-- What `trim` has left begins with no blank.
trim_start-trim_end : (t : Str) → trim_start t ≡ t → trim_start (trim_end t) ≡ trim_end t
trim_start-trim_end [] h = rw trim_end_nil trim_start_nil
trim_start-trim_end (c ∷ t) h =
    let ink = trim_start-head (c ∷ t) h in
    rw (trim_end_ink c t ink) (trim_start_ink c (trim_end t) ink)

trim_start_idem : (s : Str) → trim_start (trim_start s) ≡ trim_start s
unfolding trim_start
trim_start_idem [] = refl
trim_start_idem (c ∷ s) = elim (Bool-cases (is_space c)) [
  | inl sp ↦ rw sp (trim_start_idem s)
  | inr ink ↦ simp ink refl
]

pub trim_idem : (s : Str) → trim (trim s) ≡ trim s
unfolding trim
trim_idem s =
    ap trim_end (trim_start-trim_end (trim_start s) (trim_start_idem s))
    ∙ trim_end_idem (trim_start s)
