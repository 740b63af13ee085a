-- ===== src/Review/Diff.antt =====
-- `anchorFor`, and the comments that `FileDiff` and `Conversation` show. The numbers of a line are texts,
-- blank on the side where the line is not. The server writes a side as "left" or "right".
pub mod Placed
use orchis_foundry.Prelude.{
  ℕ, zero, suc, ◌+◌, ◌*◌, ◌-◌, Bool, true, false, not, ◌&&◌, Option, none, some, List, [], ◌∷◌,
  ◌==◌, leb, if◌then◌else◌, Str, codes, eqs, until, trim_start, filter,
}
use orchis_foundry.Prelude.Int.{ℤ, pos, negsuc}

pub record DiffLine : Type 0 where
  pub kind : Str
  pub old_num : Str
  pub new_num : Str
  pub text : Str

pub data Side : Type 0 where
  left right : Side

pub record Anchor : Type 0 where
  pub line : ℤ
  pub side : Side

-- A comment of the server. `path`, `line` and `side` are missing from a comment on the whole.
pub record Posted : Type 0 where
  pub path : Option Str
  pub line : Option ℤ
  pub side : Option Side
  pub body : Str

-- A comment held for the review.
pub record Staged : Type 0 where
  pub path : Str
  pub line : ℤ
  pub side : Side
  pub body : Str

pub record Hunk : Type 0 where
  pub header : Str
  pub lines : List DiffLine

pub record FileDiff : Type 0 where
  pub path : Str
  pub additions : ℕ
  pub deletions : ℕ
  pub hunks : List Hunk
  pub comments : List Posted

abbrev is_digit : ℕ → Bool
is_digit c = leb b'0' c && leb c b'9'

-- The value of a run of digits, behind those read as `n`.
abbrev digits_value : ℕ → Str → ℕ
digits_value n [] = n
digits_value n (d ∷ ds) = digits_value (n * 10 + (d - b'0')) ds

abbrev negated : ℕ → ℤ
negated zero = pos 0
negated (suc n) = negsuc n

-- The digits at the front, if any.
unfoldable parse_digits : (ℕ → ℤ) → Str → Option ℤ
unfolding until
parse_digits sign s = elim (until (λ c. not (is_digit c)) s).0 [
  | [] ↦ none
  | d ∷ ds ↦ some (sign (digits_value 0 (d ∷ ds)))
]

-- `parseInt(s, 10)`: a sign may stand in front; `none` is `NaN`.
unfoldable parse_signed : Str → Option ℤ
unfolding parse_digits
parse_signed [] = none
parse_signed (c ∷ s) =
    if c == b'-'
    then parse_digits negated s
    else if c == b'+'
    then parse_digits pos s
    else parse_digits pos (c ∷ s)

unfoldable pub parse_int : Str → Option ℤ
unfolding parse_signed trim_start
parse_int s = parse_signed (trim_start s)

abbrev anchor_at : Side → Option ℤ → Option Anchor
anchor_at d none = none
anchor_at d (some n) = some (record { line = n; side = d })

unfoldable pub anchor_for : DiffLine → Option Anchor
unfolding eqs parse_int
anchor_for ln =
    if eqs ln.kind (codes "del")
    then anchor_at left (parse_int ln.old_num)
    else anchor_at right (parse_int ln.new_num)

-- `===` on line numbers and on sides.
abbrev pub eq_ℤ : ℤ → ℤ → Bool
eq_ℤ (pos m) (pos n) = m == n
eq_ℤ (pos m) (negsuc n) = false
eq_ℤ (negsuc m) (pos n) = false
eq_ℤ (negsuc m) (negsuc n) = m == n

abbrev pub eq_side : Side → Side → Bool
eq_side left left = true
eq_side right right = true
eq_side left right = false
eq_side right left = false

-- `c.line === a.line` where the comment may have no line.
abbrev on_line : Option ℤ → ℤ → Bool
on_line none n = false
on_line (some m) n = eq_ℤ m n

-- `c.side || "right"`.
abbrev side_or_right : Option Side → Side
side_or_right none = right
side_or_right (some d) = d

-- `inlineComments` of a line with that anchor.
unfoldable pub inline_comments : Option Anchor → List Posted → List Posted
inline_comments none cs = []
inline_comments (some a) cs =
    filter (λ c. on_line c.line a.line && eq_side (side_or_right c.side) a.side) cs

-- `stagedHere` of a line with that anchor.
unfoldable pub staged_here : Str → Option Anchor → List Staged → List Staged
unfolding eqs
staged_here path none pending = []
staged_here path (some a) pending =
    filter (λ c. eqs c.path path && (eq_ℤ c.line a.line && eq_side c.side a.side)) pending

-- `c.line == null && !c.path`.
abbrev is_top_level : Posted → Bool
is_top_level c = elim c.line [
  | none ↦ elim c.path [ none ↦ true | some p ↦ eqs p [] ]
  | some n ↦ false
]

-- `topLevel` of the conversation.
unfoldable pub top_level : List Posted → List Posted
unfolding eqs
top_level cs = filter is_top_level cs
