-- ===== src/General/Sanitize.antt =====
-- general-backend/sanitize/sanitize.go. Parsing a UUID and lowering the case of a text are library
-- code: parameters.
use Prim.Native.String.{String, len}
use tchebets_open.Prelude.{
  ℕ, true, false, not, ◌||◌, Option, none, some, List, [], ◌∷◌, Result, ok, err, ltb, if◌then◌else◌,
  ℤ, pos, ltb_ℤ, length, contains,
}
use tchebets_open.General.Text.{is_empty, trim, all_in}

pub data SanitizeError : Type 0 where
  invalid_uuid : SanitizeError
  empty_value : SanitizeError
  too_long : ℕ → SanitizeError
  too_few_outcomes : ℕ → SanitizeError
  too_many_outcomes : ℕ → SanitizeError
  invalid_outcome : String → SanitizeError → SanitizeError
  duplicate_outcome : String → SanitizeError
  invalid_address_length : SanitizeError
  invalid_address_character : SanitizeError
  not_positive : SanitizeError
  negative : SanitizeError
  exceeds : ℕ → SanitizeError

-- `MaxSanityInt`.
abbrev pub max_sanity_int : ℕ
max_sanity_int = 1000000000

-- `base58Alphabet`.
abbrev pub base58_alphabet : String
base58_alphabet = "123456789ABCDEFGHJKLMNPQRSTUVWXYZabcdefghijkmnopqrstuvwxyz"

-- `NonEmptyString`.
unfoldable pub non_empty_string : String → ℕ → Result SanitizeError String
non_empty_string s max_len =
    if is_empty (trim s)
    then err empty_value
    else if ltb max_len (len (trim s))
    then err (too_long max_len)
    else ok (trim s)

-- `PositiveInt64` and `NonNegativeInt64`.
unfoldable pub positive_int64 : ℤ → ℕ → Result SanitizeError ℤ
positive_int64 n max =
    if not (ltb_ℤ (pos 0) n)
    then err not_positive
    else if ltb_ℤ (pos max) n
    then err (exceeds max)
    else ok n

unfoldable pub non_negative_int64 : ℤ → ℕ → Result SanitizeError ℤ
non_negative_int64 n max =
    if ltb_ℤ n (pos 0) then err negative else if ltb_ℤ (pos max) n then err (exceeds max) else ok n

-- `SolanaAddress`.
unfoldable pub solana_address : String → Result SanitizeError String
solana_address s =
    if ltb (len (trim s)) 32 || ltb 44 (len (trim s))
    then err invalid_address_length
    else if all_in base58_alphabet (trim s)
    then ok (trim s)
    else err invalid_address_character

-- `UUID`: a UUID is the number that its canonical text spells.
unfoldable pub sanitize_uuid : (String → Option ℕ) → String → Result SanitizeError ℕ
sanitize_uuid parse s = elim (parse (trim s)) [ none ↦ err invalid_uuid | some id ↦ ok id ]

module _ (to_lower : String → String) where
  -- The loop of `Outcomes`; `seen` is the map of the keys, and the result is what is appended to
  -- `cleaned`.
  unfoldable pub clean_outcomes : ℕ → List String → List String → Result SanitizeError (List String)
  clean_outcomes max_len seen [] = ok []
  clean_outcomes max_len seen (o ∷ os) = elim (non_empty_string o max_len) [
    | err e ↦ err (invalid_outcome o e)
    | ok t ↦ elim (contains (to_lower t) seen) [
      | true ↦ err (duplicate_outcome t)
      | false ↦ elim (clean_outcomes max_len (to_lower t ∷ seen) os) [
        | ok ts ↦ ok (t ∷ ts)
        | err e ↦ err e
      ]
    ]
  ]

  -- `Outcomes`.
  unfoldable pub sanitize_outcomes :
      List String → (min_count max_count max_len : ℕ) → Result SanitizeError (List String)
  sanitize_outcomes os min_count max_count max_len =
      if ltb (length os) min_count
      then err (too_few_outcomes min_count)
      else if ltb max_count (length os)
      then err (too_many_outcomes max_count)
      else clean_outcomes max_len [] os
