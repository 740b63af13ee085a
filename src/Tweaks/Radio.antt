-- ===== src/Tweaks/Radio.antt =====
-- `TweakRadio` of web/tweaks-panel.jsx: a choice as segments under the pointer, or as a dropdown where the
-- labels are too long. Places are whole pixels, from the left end of the segments; the numbers of the
-- options are whole and not negative. The quotient under the pointer is exact, where the page divides floats.
pub mod Segments
pub mod Choice
use orchis_foundry.Prelude.{
  ℕ, zero, suc, ◌+◌, ◌-◌, ◌*◌, ◌/◌, ◌%◌, min, max, Bool, true, false, not, ◌&&◌, Option, none, some,
  List, [], ◌∷◌, digits, ◌++◌, if◌then◌else◌, length, get_elem?, leb, ltb, ◌==◌, Str, codes, eqs,
}
use orchis_foundry.Prelude.Int.{ℤ, pos, negsuc}

pub data Value : Type 0 where
  text : Str → Value
  number : ℕ → Value
  truth : Bool → Value

-- `String(v)`.
unfoldable pub string_of : Value → Str
unfolding digits
string_of (text s) = s
string_of (number n) = digits (suc n) n
string_of (truth true) = codes "true"
string_of (truth false) = codes "false"

-- An option is a value, or an object with its label.
pub data TweakOption : Type 0 where
  plain : Value → TweakOption
  labelled : Value → Str → TweakOption

-- `typeof o === 'object' ? o.value : o`.
abbrev pub value_of : TweakOption → Value
value_of (plain v) = v
value_of (labelled v l) = v

-- `labelLen`.
unfoldable label_len : TweakOption → ℕ
unfolding string_of
label_len (plain v) = length (string_of v)
label_len (labelled v l) = length l

-- `maxLen`.
unfoldable max_len : List TweakOption → ℕ
unfolding label_len
max_len [] = 0
max_len (o ∷ os) = max (label_len o) (max_len os)

-- `{ 2: 16, 3: 10 }[n] ?? 0`.
abbrev pub room : ℕ → ℕ
room n = if n == 2 then 16 else if n == 3 then 10 else 0

-- `fitsAsSegments`.
unfoldable pub fits_as_segments : List TweakOption → Bool
unfolding max_len
fits_as_segments os = leb (max_len os) (room (length os))

-- `resolve`: the value of the first option with this text.
unfoldable pub resolve : List TweakOption → Str → Value
unfolding string_of eqs
resolve [] s = text s
resolve (o ∷ os) s =
    let rest = resolve os s in if eqs (string_of (value_of o)) s then value_of o else rest

abbrev same_truth : Bool → Bool → Bool
same_truth true b = b
same_truth false b = not b

-- `===`.
unfoldable same_value : Value → Value → Bool
unfolding eqs
same_value (text s) (text t) = eqs s t
same_value (number m) (number n) = m == n
same_value (truth a) (truth b) = same_truth a b
same_value _ _ = false

-- `opts.findIndex((o) => o.value === value)`.
unfoldable find_value : List TweakOption → Value → Option ℕ
unfolding same_value
find_value [] v = none
find_value (o ∷ os) v =
    let rest = find_value os v in
    if same_value (value_of o) v then some 0 else elim rest [ none ↦ none | some i ↦ some (suc i) ]

-- `idx`, where the thumb is drawn.
unfoldable thumb_index : List TweakOption → Value → ℕ
unfolding find_value
thumb_index os v = elim (find_value os v) [ none ↦ 0 | some i ↦ i ]

-- The index under the pointer, of `n` options on a track of `inner` pixels.
abbrev pub seg_index : ℕ → ℕ → ℤ → ℕ
seg_index n inner (negsuc k) = 0
seg_index n inner (pos x) = min (n - 1) (x * n / inner)

-- `segAt`.
abbrev pub seg_at : List TweakOption → ℕ → ℤ → Option TweakOption
seg_at os inner x = get_elem? os (seg_index (length os) inner x)

-- The value that the panel shows, and whether the pointer is held.
pub record Radio : Type 0 where
  pub value : Value
  pub dragging : Bool

pub data Event : Type 0 where
  pointer_down pointer_move : ℤ → Event
  pointer_up : Event

-- `if (v !== valueRef.current) onChange(v)`; what is changed is the value from then on.
unfoldable pub pressed : Radio → Option TweakOption → Radio × List Value
unfolding same_value
pressed r none = (r, [])
pressed r (some o) =
    if same_value (value_of o) r.value
    then (r, [])
    else (record r { value = value_of o }, value_of o ∷ [])

module _ (os : List TweakOption) (inner : ℕ) where
  unfoldable pub step : Radio → Event → Radio × List Value
  unfolding pressed
  step r (pointer_down x) = pressed (record r { dragging = true }) (seg_at os inner x)
  step r (pointer_move x) = if r.dragging then pressed r (seg_at os inner x) else (r, [])
  step r pointer_up = (record r { dragging = false }, [])
