-- ===== src/Go/Strconv/Numerals.antt =====
-- The numerals of Go, in the four bases, and how `ParseUint` reads them.
use skopeo.Prelude.{
  ℕ, ◌+◌, ◌*◌, ◌^◌, ◌≤◌, ◌<◌, ◌≡◌, ◌≢◌, refl, ◌∙◌, ◌⊎◌, inl, inr, Bool, true, false, Bool-cases,
  List, [], ◌∷◌, ltb, leb, eqb, arith, if◌then◌else◌,
}
use skopeo.Prelude.Int.{pos}
use skopeo.Prelude.Texts.{Text}
use skopeo.Go.Strconv.{
  Parsed, value, bad, range, lower, mark_of, add_digit, uint_loop, underscored, base_of, parse_uint,
  signed, negate, parse_int, digit,
}

pub data Base : Type 0 where
  binary octal decimal hexadecimal : Base

abbrev pub radix : Base → ℕ
radix binary = 2
radix octal = 8
radix decimal = 10
radix hexadecimal = 16

-- The byte is a figure or one of the letters `a` to `f` or `A` to `F`, and stands for the number.
abbrev pub IsDigit : ℕ → ℕ → Type 0
IsDigit c d =
    ((d < 10) × (c ≡ d + b'0'))
    ⊎ (((10 ≤ d) × (d < 16) × (c + 10 ≡ d + b'a')) ⊎ ((10 ≤ d) × (d < 16) × (c + 10 ≡ d + b'A')))

-- The bytes are digits of the base, with these values.
abbrev pub AreDigits : Base → Text → List ℕ → Type 0
AreDigits base [] [] = Unit
AreDigits base (c ∷ s) (d ∷ ds) = IsDigit c d × (d < radix base) × AreDigits base s ds
AreDigits base _ _ = ⊥

-- The number with these digits behind the digits of `n`.
abbrev pub number_of : Base → ℕ → List ℕ → ℕ
number_of base n [] = n
number_of base n (d ∷ ds) = number_of base (n * radix base + d) ds

-- `0b`, `0o` and `0x`, with a small or a capital letter, by that letter.
pub data Prefix : Base → ℕ → Type 0 where
  small_b : Prefix binary b'b'
  capital_b : Prefix binary b'B'
  small_o : Prefix octal b'o'
  capital_o : Prefix octal b'O'
  small_x : Prefix hexadecimal b'x'
  capital_x : Prefix hexadecimal b'X'

-- The text is an unsigned numeral without underscores, of that number.
pub data Numeral : Text → ℕ → Type 0 where
  nought : Numeral (b'0' ∷ []) 0
  prefixed :
      {p c : ℕ} {s : Text} (base : Base) (ds : List ℕ)
      → Prefix base p
      → AreDigits base (c ∷ s) ds
      → Numeral (b'0' ∷ p ∷ c ∷ s) (number_of base 0 ds)
  old_octal :
      {c : ℕ} {s : Text} (ds : List ℕ)
      → AreDigits octal (c ∷ s) ds
      → Numeral (b'0' ∷ c ∷ s) (number_of octal 0 ds)
  in_decimal :
      {c : ℕ} {s : Text} (ds : List ℕ)
      → c ≢ b'0'
      → AreDigits decimal (c ∷ s) ds
      → Numeral (c ∷ s) (number_of decimal 0 ds)

IsDigit-mark_of : (c d : ℕ) → IsDigit c d → mark_of c ≡ digit d
unfolding mark_of
IsDigit-mark_of c d (inl (h, e)) = ground arith
IsDigit-mark_of c d (inr (inl (l, h, e))) = ground arith
IsDigit-mark_of c d (inr (inr (l, h, e))) = ground arith

number_grows : (base : Base) (n : ℕ) (ds : List ℕ) → n ≤ number_of base n ds
number_grows base n [] = omega arith
number_grows binary n (d ∷ ds) = omega (arith, number_grows binary (n * 2 + d) ds)
number_grows octal n (d ∷ ds) = omega (arith, number_grows octal (n * 8 + d) ds)
number_grows decimal n (d ∷ ds) = omega (arith, number_grows decimal (n * 10 + d) ds)
number_grows hexadecimal n (d ∷ ds) = omega (arith, number_grows hexadecimal (n * 16 + d) ds)

add_digit_fits :
    (base : Base) (n d : ℕ)
    → d < radix base
    → n * radix base + d < 2 ^ 64
    → add_digit (radix base) n d ≡ value (n * radix base + d)
unfolding add_digit
add_digit_fits binary n d h fits = ground arith
add_digit_fits octal n d h fits = ground arith
add_digit_fits decimal n d h fits = ground arith
add_digit_fits hexadecimal n d h fits = ground arith

add_digit_range :
    (base : Base) (n d : ℕ)
    → d < radix base
    → n < 2 ^ 64
    → 2 ^ 64 ≤ n * radix base + d
    → add_digit (radix base) n d ≡ bad range
unfolding add_digit
add_digit_range binary n d h fits big = ground arith
add_digit_range octal n d h fits big = ground arith
add_digit_range decimal n d h fits big = ground arith
add_digit_range hexadecimal n d h fits big = ground arith

-- How a reader of 64 bits ends on a number.
abbrev pub in_range {ℓ} : {A : Type ℓ} → ℕ → A → Parsed A
in_range n a = if ltb n (2 ^ 64) then value a else bad range

uint_loop_lem :
    (base : Base) (n : ℕ) (s : Text) (ds : List ℕ)
    → n < 2 ^ 64
    → AreDigits base s ds
    → uint_loop (radix base) false n s ≡ in_range (number_of base n ds) (false, number_of base n ds)
unfolding uint_loop
uint_loop_lem base n [] [] fits h = let e : ltb n (2 ^ 64) ≡ true = ground arith in rw e
uint_loop_lem base n [] (d ∷ ds) fits h = absurd h
uint_loop_lem base n (c ∷ s) [] fits h = absurd h
uint_loop_lem base n (c ∷ s) (d ∷ ds) fits (is, small, rest) =
    let mark = IsDigit-mark_of c d is in
    elim (Bool-cases (ltb (n * radix base + d) (2 ^ 64))) [
      | inl p ↦
          rw (mark, add_digit_fits base n d small (ground arith), uint_loop)
            (uint_loop_lem base (n * radix base + d) s ds (ground arith) rest)
      | inr p ↦
          let grows = number_grows base (n * radix base + d) ds in
          let big : ltb (number_of base (n * radix base + d) ds) (2 ^ 64) ≡ false = ground arith in
          rw (mark, add_digit_range base n d small fits (ground arith), big, uint_loop)
    ]

underscored_lem :
    (t : Text) (fits : Bool) (n : ℕ)
    → underscored t (if fits then value (false, n) else bad range)
      ≡ (if fits then value n else bad range)
underscored_lem t true n = refl
underscored_lem t false n = refl

-- The check of underscores does nothing for digits.
uint_loop-underscored :
    (base : Base) (t s : Text) (ds : List ℕ)
    → AreDigits base s ds
    → underscored t (uint_loop (radix base) false 0 s)
      ≡ in_range (number_of base 0 ds) (number_of base 0 ds)
uint_loop-underscored base t s ds h =
    rw (uint_loop_lem base 0 s ds (omega arith) h)
      (underscored_lem t (ltb (number_of base 0 ds) (2 ^ 64)) (number_of base 0 ds))

base_of_prefix :
    (base : Base) (p c : ℕ) (s : Text)
    → Prefix base p
    → base_of (b'0' ∷ p ∷ c ∷ s) ≡ (radix base, c ∷ s)
base_of_prefix base p c s small_b = refl
base_of_prefix base p c s capital_b = refl
base_of_prefix base p c s small_o = refl
base_of_prefix base p c s capital_o = refl
base_of_prefix base p c s small_x = refl
base_of_prefix base p c s capital_x = refl

octal_figure : (c d : ℕ) → IsDigit c d → d < 8 → (b'0' ≤ c) × (c < b'8')
octal_figure c d (inl (h, e)) small = ground arith
octal_figure c d (inr (inl (l, h, e))) small = absurd (omega arith)
octal_figure c d (inr (inr (l, h, e))) small = absurd (omega arith)

base_of_octal : (c : ℕ) (s : Text) → b'0' ≤ c → c < b'8' → base_of (b'0' ∷ c ∷ s) ≡ (8, c ∷ s)
base_of_octal c [] low high = refl
base_of_octal c (c' ∷ s) low high =
    let no_b : eqb (lower c) b'b' ≡ false = ground arith in
    let no_o : eqb (lower c) b'o' ≡ false = ground arith in
    let no_x : eqb (lower c) b'x' ≡ false = ground arith in rw (no_b, no_o, no_x)

base_of_decimal : (c : ℕ) (s : Text) → c ≢ b'0' → base_of (c ∷ s) ≡ (10, c ∷ s)
base_of_decimal c [] h = let e : eqb c b'0' ≡ false = ground arith in rw e
base_of_decimal c (c' ∷ s) h = let e : eqb c b'0' ≡ false = ground arith in rw e

parse_uint_lem : (t : Text) (n : ℕ) → Numeral t n → parse_uint t ≡ in_range n n
unfolding parse_uint
parse_uint_lem t n nought = refl
parse_uint_lem t n (prefixed {p} {c} {s} base ds prefix h) =
    rw (base_of_prefix base p c s prefix) (uint_loop-underscored base _ (c ∷ s) ds h)
parse_uint_lem t n (old_octal {c} {s} [] h) = absurd h
parse_uint_lem t n (old_octal {c} {s} (d ∷ ds) h) =
    let (is, small, rest) = h in
    let (low, high) = octal_figure c d is small in
    rw (base_of_octal c s low high) (uint_loop-underscored octal _ (c ∷ s) (d ∷ ds) h)
parse_uint_lem t n (in_decimal {c} {s} ds not_zero h) =
    rw (base_of_decimal c s not_zero) (uint_loop-underscored decimal _ (c ∷ s) ds h)

digit_no_sign : (c d : ℕ) → IsDigit c d → (eqb c b'+' ≡ false) × (eqb c b'-' ≡ false)
digit_no_sign c d (inl (h, e)) = (ground arith, ground arith)
digit_no_sign c d (inr (inl (l, h, e))) = (ground arith, ground arith)
digit_no_sign c d (inr (inr (l, h, e))) = (ground arith, ground arith)

-- A numeral has no sign.
parse_int_unsigned : (t : Text) (n : ℕ) → Numeral t n → parse_int t ≡ signed false (parse_uint t)
unfolding parse_int
parse_int_unsigned t n nought = refl
parse_int_unsigned t n (prefixed base ds prefix h) = refl
parse_int_unsigned t n (old_octal ds h) = refl
parse_int_unsigned t n (in_decimal {c} [] not_zero h) = absurd h
parse_int_unsigned t n (in_decimal {c} (d ∷ ds) not_zero h) =
    let (plus, minus) = digit_no_sign c d h.0 in rw (plus, minus)

signed_false :
    (n : ℕ) → signed false (in_range n n) ≡ (if ltb n (2 ^ 63) then value (pos n) else bad range)
unfolding signed
signed_false n = ground arith

signed_true :
    (n : ℕ) → signed true (in_range n n) ≡ (if leb n (2 ^ 63) then value (negate n) else bad range)
unfolding signed
signed_true n = ground arith

-- A numeral without a sign, with `+` and with `-` is read as its number where that has 64 bits.
pub parse_int_lem :
    (t : Text) (n : ℕ)
    → Numeral t n
    → (parse_int t ≡ (if ltb n (2 ^ 63) then value (pos n) else bad range))
      × (parse_int (b'+' ∷ t) ≡ (if ltb n (2 ^ 63) then value (pos n) else bad range))
      × (parse_int (b'-' ∷ t) ≡ (if leb n (2 ^ 63) then value (negate n) else bad range))
unfolding parse_int
parse_int_lem t n numeral =
    let read = parse_uint_lem t n numeral in
    (
      parse_int_unsigned t n numeral ∙ rw read (signed_false n),
      rw read (signed_false n),
      rw read (signed_true n),
    )
