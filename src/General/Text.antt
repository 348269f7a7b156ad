-- ===== src/General/Text.antt =====
-- The functions of Go's `strings` that general-backend/sanitize/sanitize.go uses.
use Prim.Native.Char.{Char, code, len_utf8}
use Prim.Native.String.{String, [], ◌∷◌, len, count}
use Prim.Native.String.len
use Prim.Native.String.count
use text.Mathlib.TextPositions.{len_utf8-pos}
use tchebets_open.Prelude.{
  ℕ, suc, ◌+◌, ◌≤◌, ◌≡◌, refl, Bool, true, false, not, ◌&&◌, ◌||◌, arith, leb, ◌==◌, if◌then◌else◌,
  Bool-cases, inl, inr,
}

-- `unicode.IsSpace`: the white space of Latin-1, and the other code points with that property.
abbrev pub is_space_code : ℕ → Bool
is_space_code c =
    (leb 9 c && leb c 13)
    || (c == 32)
    || (c == 133)
    || (c == 160)
    || (c == 5760)
    || (leb 8192 c && leb c 8202)
    || (c == 8232)
    || (c == 8233)
    || (c == 8239)
    || (c == 8287)
    || (c == 12288)

abbrev pub is_space : Char → Bool
is_space c = is_space_code (code c)

abbrev pub is_empty : String → Bool
is_empty [] = true
is_empty (c ∷ s) = false

unfoldable pub trim_left : String → String
trim_left [] = []
trim_left (c ∷ s) = let rest = trim_left s in if is_space c then rest else c ∷ s

unfoldable pub trim_right : String → String
trim_right [] = []
trim_right (c ∷ s) = let rest = trim_right s in if is_space c && is_empty rest then [] else c ∷ rest

-- `strings.TrimSpace`.
unfoldable pub trim : String → String
unfolding trim_left trim_right
trim s = trim_right (trim_left s)

-- `strings.ContainsRune`.
unfoldable pub contains_char : String → Char → Bool
contains_char [] c = false
contains_char (d ∷ s) c = (code d == code c) || contains_char s c

-- `for _, r := range s { if !strings.ContainsRune(set, r) { … } }`
unfoldable pub all_in : String → String → Bool
unfolding contains_char
all_in set [] = true
all_in set (c ∷ s) = contains_char set c && all_in set s

-- No space at the start.
abbrev pub starts_plain : String → Bool
starts_plain [] = true
starts_plain (c ∷ s) = not (is_space c)

starts_plain-trim_left : (s : String) → starts_plain (trim_left s) ≡ true
unfolding trim_left
starts_plain-trim_left [] = refl
starts_plain-trim_left (c ∷ s) = elim (Bool-cases (is_space c)) [
  | inl h ↦ rw h (starts_plain-trim_left s)
  | inr h ↦ rw h (rw h refl)
]

trim_left-plain : (s : String) → starts_plain s ≡ true → trim_left s ≡ s
unfolding trim_left
trim_left-plain [] h = refl
trim_left-plain (c ∷ s) h = elim (Bool-cases (is_space c)) [
  | inl k ↦ absurd (ground arith)
  | inr k ↦ rw k refl
]

starts_plain-trim_right : (s : String) → starts_plain s ≡ true → starts_plain (trim_right s) ≡ true
unfolding trim_right
starts_plain-trim_right [] h = refl
starts_plain-trim_right (c ∷ s) h = elim (Bool-cases (is_space c)) [
  | inl k ↦ absurd (ground arith)
  | inr k ↦ rw k (rw k refl)
]

trim_right_idem : (s : String) → trim_right (trim_right s) ≡ trim_right s
unfolding trim_right
trim_right_idem [] = refl
trim_right_idem (c ∷ s) = elim (Bool-cases (is_space c && is_empty (trim_right s))) [
  | inl k ↦ rw k refl
  | inr k ↦ rw k (rw (trim_right_idem s) (rw k refl))
]

-- What is trimmed once has nothing more to trim.
pub trim_idem : (s : String) → trim (trim s) ≡ trim s
unfolding trim
trim_idem s =
    let plain = starts_plain-trim_right (trim_left s) (starts_plain-trim_left s) in
    rw (trim_left-plain (trim_right (trim_left s)) plain) (trim_right_idem (trim_left s))

-- A text has no more characters than bytes.
pub count-le-len : (s : String) → count s ≤ len s
count-le-len [] = omega arith
count-le-len (c ∷ s) =
    let (k, e) = len_utf8-pos c in
    let bytes : len (c ∷ s) ≡ len_utf8 c + len s = λ i. len.cons c s i in
    let chars : count (c ∷ s) ≡ suc (count s) = λ i. count.cons c s i in
    ground (arith, count-le-len s, e, bytes, chars)
