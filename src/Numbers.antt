-- ===== src/Numbers.antt =====
-- The conversions of texts to numbers that the code takes from the standard library of C++
-- (`std::stoi`, `std::stoul`), with the exceptions that they and their callers throw.
use buildbox_common.Prelude.{
  ℕ, zero, suc, ◌+◌, ◌-◌, ◌*◌, ◌/◌, ltb, ◌%◌, ◌^◌, Bool, true, false, ◌&&◌, [], ◌∷◌, ◌==◌, leb,
  if◌then◌else◌, Text,
}
use buildbox_common.Prelude.Int.{ℤ, pos, negsuc}
use buildbox_common.StringUtils.{ltrim}

-- A result, or an exception of the standard library.
pub data Parsed {ℓ} (A : Type ℓ) : Type ℓ where
  parsed : A → Parsed A
  runtime_error : Parsed A
  invalid_argument : Parsed A
  out_of_range : Parsed A
  range_error : Parsed A

abbrev pub is_digit : ℕ → Bool
is_digit c = leb b'0' c && leb c b'9'

-- The value of the leading decimal digits, on top of `value`.
unfoldable pub digits_value : ℕ → Text → ℕ
digits_value value [] = value
digits_value value (c ∷ rest) =
    let more = digits_value (value * 10 + (c - b'0')) rest in if is_digit c then more else value

abbrev pub starts_with_digit : Text → Bool
starts_with_digit [] = false
starts_with_digit (c ∷ _) = is_digit c

-- The sign that `std::stoul` and `std::stoi` take, and the rest.
abbrev pub read_sign : Text → Bool × Text
read_sign [] = (false, [])
read_sign (c ∷ rest) =
    if c == b'-' then (true, rest) else if c == b'+' then (false, rest) else (false, c ∷ rest)

abbrev pub checked : Bool → ℕ → Parsed ℕ
checked negative value =
    if leb (2 ^ 64) value
    then out_of_range
    else parsed (if negative then (2 ^ 64 - value) % 2 ^ 64 else value)

-- A number with its sign read off.
abbrev pub number_of : {A : Type 0} → (Bool → ℕ → Parsed A) → Bool × Text → Parsed A
number_of check (negative, rest) =
    if starts_with_digit rest then check negative (digits_value 0 rest) else invalid_argument

-- `std::stoul`, where `unsigned long` has 64 bits.
unfoldable pub stoul : Text → Parsed ℕ
unfolding ltrim digits_value
stoul text = number_of checked (read_sign (ltrim text))

abbrev pub checked_int : Bool → ℕ → Parsed ℤ
checked_int true zero = parsed (pos 0)
checked_int true (suc n) = if leb (2 ^ 31) n then out_of_range else parsed (negsuc n)
checked_int false value = if leb (2 ^ 31) value then out_of_range else parsed (pos value)

-- `std::stoi`, where `int` has 32 bits.
unfoldable pub stoi : Text → Parsed ℤ
unfolding ltrim digits_value
stoi text = number_of checked_int (read_sign (ltrim text))

-- The decimal digits of a number, in front of `text`, with a fuel of more than the number's.
unfoldable pub decimal : ℕ → ℕ → Text → Text
decimal zero n text = text
decimal (suc fuel) n text = elim (ltb n 10) [
  | true ↦ (n + b'0') ∷ text
  | false ↦ decimal fuel (n / 10) ((n % 10 + b'0') ∷ text)
]

-- `std::to_string`
unfoldable pub to_string : ℕ → Text
unfolding decimal
to_string n = decimal (suc n) n []
