-- ===== src/Tweaks/Colours.antt =====
-- `__twkIsLight` of web/tweaks-panel.jsx: whether a check mark on a colour is drawn dark.
pub mod Luminance
use orchis_foundry.Prelude.{
  ℕ, zero, suc, ◌+◌, ◌-◌, ◌*◌, ◌/◌, ◌%◌, Bool, true, false, ◌&&◌, ◌||◌, Option, none, some, List,
  [], ◌∷◌, ◌++◌, if◌then◌else◌, length, take, leb, ltb, ◌==◌, Str, trim_start,
}

-- The value of a hexadecimal digit.
unfoldable pub hex_digit : ℕ → Option ℕ
hex_digit c =
    if leb 48 c && leb c 57
    then some (c - 48)
    else if leb 65 c && leb c 70
    then some (c - 55)
    else if leb 97 c && leb c 102
    then some (c - 87)
    else none

-- `.replace('#', '')`: the first one.
pub drop_hash : Str → Str
drop_hash [] = []
drop_hash (c ∷ s) = let rest = drop_hash s in if c == 35 then s else c ∷ rest

-- What `.` of a pattern does not match.
pub is_line_end : ℕ → Bool
is_line_end c = c == 10 || c == 13 || c == 0x2028 || c == 0x2029

-- `h.replace(/./g, (c) => c + c)`.
pub doubled : Str → Str
unfolding is_line_end
doubled [] = []
doubled (c ∷ s) = let rest = doubled s in if is_line_end c then c ∷ rest else c ∷ c ∷ rest

unfoldable zeros : ℕ → Str
zeros zero = []
zeros (suc n) = 48 ∷ zeros n

-- `h.padEnd(6, '0')`.
pub padded : Str → Str
unfolding zeros
padded h = h ++ zeros (6 - length h)

-- `x`.
pub long_form : Str → Str
unfolding doubled padded
long_form h = if length h == 3 then doubled h else padded h

-- The digits at the front, behind those that are read already.
pub read_hex : ℕ → Str → ℕ
unfolding hex_digit
read_hex n [] = n
read_hex n (c ∷ s) = elim (hex_digit c) [ none ↦ n | some d ↦ read_hex (n * 16 + d) s ]

-- The number of the digits at the front; none where there is no digit.
pub hex_number : Str → Option ℕ
unfolding read_hex
hex_number [] = none
hex_number (c ∷ s) = elim (hex_digit c) [ none ↦ none | some d ↦ some (read_hex d s) ]

-- Without the `0x` or `0X` that `parseInt` allows.
pub drop_prefix : Str → Str
drop_prefix (a ∷ b ∷ s) = if a == 48 && (b == 120 || b == 88) then s else a ∷ b ∷ s
drop_prefix s = s

-- The 32 bits of a number with its sign.
abbrev negative_bits : Option ℕ → Option ℕ
negative_bits none = none
negative_bits (some n) = some ((4294967296 - n) % 4294967296)

pub signed : Str → Option ℕ
unfolding drop_prefix hex_number
signed [] = none
signed (c ∷ s) =
    if c == 45
    then negative_bits (hex_number (drop_prefix s))
    else if c == 43
    then hex_number (drop_prefix s)
    else hex_number (drop_prefix (c ∷ s))

-- `parseInt(s, 16)` as the 32 bits that `>>` and `&` read, of a text of six units at most; none for NaN.
pub parse_hex : Str → Option ℕ
unfolding signed trim_start
parse_hex s = signed (trim_start s)

abbrev pub luminance : ℕ → ℕ → ℕ → ℕ
luminance r g b = r * 299 + g * 587 + b * 114

abbrev pub is_pale : Option ℕ → Bool
is_pale none = true
is_pale (some n) = ltb 148000 (luminance (n / 65536 % 256) (n / 256 % 256) (n % 256))

unfoldable pub is_light : Str → Bool
unfolding drop_hash long_form parse_hex
is_light hex = is_pale (parse_hex (take 6 (long_form (drop_hash hex))))
