-- ===== src/Code/Lexer.antt =====
-- `highlightRust`. The loop runs the pattern
-- /([A-Za-z_][A-Za-z0-9_]*)|("(?:[^"\\]|\\.)*")|(\/\/.*$)|(\b\d+\b)|(\s+)|([^A-Za-z0-9_"\s]+)/g
-- over the line; a unit at which no group matches is passed over. The third group never matches,
-- since the part of the line that is scanned holds no `//`.
pub mod Laws
pub mod Shown
pub mod Digits
use orchis_foundry.Prelude.{
  ℕ, zero, suc, Bool, true, false, not, ◌&&◌, ◌||◌, Option, none, some, List, [], ◌∷◌, ◌++◌, ◌==◌,
  leb, if◌then◌else◌, Str, codes, eqs, is_space, until, length,
}

pub is_digit : ℕ → Bool
is_digit c = leb b'0' c && leb c b'9'

unfoldable is_upper : ℕ → Bool
is_upper c = leb b'A' c && leb c b'Z'

-- [A-Za-z_]
pub starts_word : ℕ → Bool
unfolding is_upper
starts_word c = is_upper c || leb b'a' c && leb c b'z' || c == b'_'

-- [A-Za-z0-9_], the class on whose border `\b` stands.
pub in_word : ℕ → Bool
unfolding starts_word is_digit
in_word c = starts_word c || is_digit c

-- [^A-Za-z0-9_"\s]
pub is_mark : ℕ → Bool
unfolding in_word is_space
is_mark c = not (in_word c) && not (c == b'"') && not (is_space c)

-- What `.` does not match.
unfoldable ends_line : ℕ → Bool
ends_line c = c == b'\n' || c == b'\r' || c == 0x2028 || c == 0x2029

pub record Token : Type 0 where
  pub text : Str
  pub color : Option Str
  pub italic : Bool

abbrev pub token : Str → Option Str → Token
token t c = record { text = t; color = c; italic = false }

abbrev keywords : List Str
keywords =
    codes "use"
    ∷ codes "pub"
    ∷ codes "fn"
    ∷ codes "impl"
    ∷ codes "struct"
    ∷ codes "let"
    ∷ codes "mut"
    ∷ codes "async"
    ∷ codes "await"
    ∷ codes "self"
    ∷ codes "Self"
    ∷ codes "match"
    ∷ codes "None"
    ∷ codes "Some"
    ∷ codes "Ok"
    ∷ codes "Err"
    ∷ codes "Result"
    ∷ codes "Option"
    ∷ codes "if"
    ∷ codes "else"
    ∷ codes "return"
    ∷ codes "true"
    ∷ codes "false"
    ∷ codes "in"
    ∷ []

unfoldable pub includes : List Str → Str → Bool
unfolding eqs
includes [] t = false
includes (k ∷ ks) t = eqs k t || includes ks t

-- The colour of a word that begins with `c`.
unfoldable word_color : ℕ → Str → Option Str
unfolding includes is_upper
word_color c w =
    if includes keywords (c ∷ w)
    then some (codes "oklch(60% 0.14 280)")
    else if is_upper c
    then some (codes "oklch(64% 0.12 30)")
    else none

abbrev pub front : ℕ → Option (Str × Str) → Option (Str × Str)
front c none = none
front c (some (body, rest)) = some (c ∷ body, rest)

-- (?:[^"\\]|\\.)*" behind the opening quote; the flag says that a backslash stands before.
pub close_string : Bool → Str → Option (Str × Str)
unfolding ends_line
close_string escaped [] = none
close_string true (c ∷ s) = if ends_line c then none else front c (close_string false s)
close_string false (c ∷ s) =
    let rest = front c (close_string (c == b'\\') s) in if c == b'"' then some (c ∷ [], s) else rest

-- No word goes on at the front of the text: the second `\b` of a number.
pub word_ends : Str → Bool
unfolding in_word
word_ends [] = true
word_ends (c ∷ s) = not (in_word c)

-- A match, if any, what is left, and whether the unit before that belongs to a word.
pub record Round : Type 0 where
  pub pushed : Option Token
  pub rest : Str
  pub behind_word : Bool

abbrev pub matched : Token → Str → Bool → Round
matched t rest w = record { pushed = some t; rest = rest; behind_word = w }

-- No group matches at `c`: the search goes on at the next unit.
abbrev pub passed : ℕ → Str → Round
passed c s = record { pushed = none; rest = s; behind_word = in_word c }

pub string_round : Str → Option (Str × Str) → Round
unfolding in_word
string_round s none = passed b'"' s
string_round s (some (body, rest)) =
    matched (token (b'"' ∷ body) (some (codes "oklch(60% 0.12 130)"))) rest false

pub number_round : Bool → ℕ → Str → Round
unfolding word_ends is_digit until
number_round behind c s =
    let run = until (λ d. not (is_digit d)) s in
    if not behind && word_ends run.1
    then matched (token (c ∷ run.0) (some (codes "oklch(65% 0.13 200)"))) run.1 true
    else passed c s

pub scan_round : Bool → ℕ → Str → Round
unfolding starts_word word_color string_round close_string number_round is_mark
scan_round behind c s =
    if starts_word c
    then (let run = until (λ d. not (in_word d)) s in
        matched (token (c ∷ run.0) (word_color c run.0)) run.1 true)
    else if c == b'"'
    then string_round s (close_string false s)
    else if is_digit c
    then number_round behind c s
    else if is_space c
    then (let run = until (λ d. not (is_space d)) s in matched (token (c ∷ run.0) none) run.1 false)
    else if is_mark c
    then (let run = until (λ d. not (is_mark d)) s in
        matched (token (c ∷ run.0) (some (codes "var(--fg-2)"))) run.1 false)
    else passed c s

abbrev pub push : Option Token → List Token → List Token
push none ts = ts
push (some t) ts = t ∷ ts

-- The first argument is fuel.
pub scan_from : ℕ → Bool → Str → List Token
unfolding scan_round
scan_from zero behind s = []
scan_from (suc f) behind [] = []
scan_from (suc f) behind (c ∷ s) =
    let r = scan_round behind c s in push r.pushed (scan_from f r.behind_word r.rest)

-- As many rounds as there are units are enough, since each takes one at least.
pub scan : Str → List Token
unfolding scan_from
scan s = scan_from (length s) false s

-- The line up to its first `//`, and from there on.
pub split_comment : Str → Str × Str
split_comment [] = ([], [])
split_comment (c ∷ []) = (c ∷ [], [])
split_comment (c ∷ d ∷ s) =
    let later = split_comment (d ∷ s) in
    if c == b'/' && d == b'/' then ([], c ∷ d ∷ s) else (c ∷ later.0, later.1)

abbrev pub comment_token : Str → List Token
comment_token [] = []
comment_token (c ∷ s) =
    record { text = c ∷ s; color = some (codes "var(--fg-3)"); italic = true } ∷ []

-- The call on `before` finds no `//`, so the recursion is one deep.
unfoldable pub highlight_rust : Str → List Token
unfolding scan split_comment
highlight_rust line = scan (split_comment line).0 ++ comment_token (split_comment line).1
