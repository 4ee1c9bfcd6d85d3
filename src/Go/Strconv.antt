-- ===== src/Go/Strconv.antt =====
-- Package strconv: `ParseInt(s, 0, 64)` and `Itoa`, with `ParseUint` and `underscoreOK` below them.
pub mod RoundTrip
pub mod Numerals
use skopeo.Prelude.{
  ℕ, zero, suc, ◌+◌, ◌-◌, ◌*◌, ◌/◌, ◌%◌, ◌^◌, ◌<◌, Bool, true, false, not, ◌&&◌, ◌||◌, List, [],
  ◌∷◌, ltb, leb, eqb, if◌then◌else◌,
}
use skopeo.Prelude.Int.{ℤ, pos, negsuc}
use skopeo.Prelude.Texts.{Text}

-- The values of a 64-bit `int`.
abbrev pub IsInt64 : ℤ → Type 0
IsInt64 (pos n) = n < 2 ^ 63
IsInt64 (negsuc n) = n < 2 ^ 63

-- `ErrSyntax` and `ErrRange`
pub data NumError : Type 0 where
  syntax range : NumError

pub data Parsed {ℓ} (A : Type ℓ) : Type ℓ where
  value : A → Parsed A
  bad : NumError → Parsed A

-- `c | 0x20`
abbrev pub lower : ℕ → ℕ
lower c = if eqb (c % 64 / 32) 0 then c + 32 else c

-- What a byte is for `ParseUint`: an underscore, a digit with its value, or anything else.
pub data Mark : Type 0 where
  underscore other : Mark
  digit : ℕ → Mark

unfoldable pub mark_of : ℕ → Mark
mark_of c =
    if eqb c b'_'
    then underscore
    else if leb b'0' c && leb c b'9'
    then digit (c - b'0')
    else if leb b'a' (lower c) && leb (lower c) b'z'
    then digit (lower c - b'a' + 10)
    else other

-- `n *= base; n1 := n + d` in `uint64`, behind the test of `n` against the cutoff.
add_digit : ℕ → ℕ → ℕ → Parsed ℕ
add_digit base n d =
    let n' = n * base % 2 ^ 64 in
    let n1 = (n' + d) % 2 ^ 64 in
    if leb base d
    then bad syntax
    else if leb ((2 ^ 64 - 1) / base + 1) n
    then bad range
    else if ltb n1 n' || ltb (2 ^ 64 - 1) n1
    then bad range
    else value n1

-- The loop of `ParseUint`, with `underscores` and `n`.
uint_loop : ℕ → Bool → ℕ → Text → Parsed (Bool × ℕ)
unfolding mark_of
uint_loop base underscores n [] = value (underscores, n)
uint_loop base underscores n (c ∷ s) = elim (mark_of c) [
  | underscore ↦ uint_loop base true n s
  | other ↦ bad syntax
  | digit d ↦ elim (add_digit base n d) [
    | bad e ↦ bad e
    | value n1 ↦ uint_loop base underscores n1 s
  ]
]

-- The state `i` of `underscoreOK`: the start or another byte, a digit, an underscore.
pub data Last : Type 0 where
  nothing number line : Last

is_number : Bool → ℕ → Bool
is_number hex c = leb b'0' c && leb c b'9' || hex && leb b'a' (lower c) && leb (lower c) b'f'

underscore_loop : Bool → Last → Text → Bool
unfolding is_number
underscore_loop hex line [] = false
underscore_loop hex nothing [] = true
underscore_loop hex number [] = true
underscore_loop hex i (c ∷ s) =
    let after_number = underscore_loop hex number s in
    let after_line = underscore_loop hex line s in
    let after_other = underscore_loop hex nothing s in
    if is_number hex c then after_number else elim i [
      | number ↦ if eqb c b'_' then after_line else after_other
      | line ↦ false
      | nothing ↦ if eqb c b'_' then false else after_other
    ]

-- A base prefix counts as a digit.
underscore_prefix : Text → Bool
underscore_prefix (z ∷ p ∷ s) =
    if eqb z b'0' && (eqb (lower p) b'b' || eqb (lower p) b'o' || eqb (lower p) b'x')
    then underscore_loop (eqb (lower p) b'x') number s
    else underscore_loop false nothing (z ∷ p ∷ s)
underscore_prefix s = underscore_loop false nothing s

-- `underscoreOK`
unfoldable pub underscore_ok : Text → Bool
unfolding underscore_loop underscore_prefix
underscore_ok [] = underscore_prefix []
underscore_ok (c ∷ s) =
    if eqb c b'-' || eqb c b'+' then underscore_prefix s else underscore_prefix (c ∷ s)

-- The base that a text names, and the text behind its prefix, for the base 0.
abbrev prefix_of : ℕ → Text → ℕ × Text
prefix_of p (c ∷ s) =
    if eqb (lower p) b'b'
    then (2, c ∷ s)
    else if eqb (lower p) b'o'
    then (8, c ∷ s)
    else if eqb (lower p) b'x'
    then (16, c ∷ s)
    else (8, p ∷ c ∷ s)
prefix_of p [] = (8, p ∷ [])

abbrev pub base_of : Text → ℕ × Text
base_of [] = (10, [])
base_of (z ∷ []) = if eqb z b'0' then (8, []) else (10, z ∷ [])
base_of (z ∷ p ∷ s) = if eqb z b'0' then prefix_of p s else (10, z ∷ p ∷ s)

-- The check of the underscores at the end of `ParseUint`.
abbrev pub underscored : Text → Parsed (Bool × ℕ) → Parsed ℕ
underscored s0 (bad e) = bad e
underscored s0 (value (underscores, n)) =
    if underscores && not (underscore_ok s0) then bad syntax else value n

-- `ParseUint(s, 0, 64)`
unfoldable pub parse_uint : Text → Parsed ℕ
unfolding uint_loop add_digit
parse_uint [] = bad syntax
parse_uint (c ∷ s) =
    let (base, digits) = base_of (c ∷ s) in underscored (c ∷ s) (uint_loop base false 0 digits)

-- `-n`
abbrev pub negate : ℕ → ℤ
negate zero = pos zero
negate (suc n) = negsuc n

-- The part of `ParseInt` behind `ParseUint`, with `neg`. A range error of `ParseUint` comes with the
-- largest number, which is beyond the cutoff.
unfoldable pub signed : Bool → Parsed ℕ → Parsed ℤ
signed neg (bad e) = bad e
signed false (value un) = if leb (2 ^ 63) un then bad range else value (pos un)
signed true (value un) = if ltb (2 ^ 63) un then bad range else value (negate un)

-- `ParseInt(s, 0, 64)`
unfoldable pub parse_int : Text → Parsed ℤ
unfolding signed
parse_int [] = bad syntax
parse_int (c ∷ s) =
    if eqb c b'+'
    then signed false (parse_uint s)
    else if eqb c b'-'
    then signed true (parse_uint s)
    else signed false (parse_uint (c ∷ s))

-- The digits of a number before the digits `out`; the number is less than ten to the fuel.
digits : ℕ → ℕ → Text → Text
digits zero n out = out
digits (suc fuel) n out =
    let more = digits fuel (n / 10) ((n % 10 + b'0') ∷ out) in
    if ltb n 10 then (n + b'0') ∷ out else more

-- `FormatUint(n, 10)`. The fuel is enough, since a number is less than ten to itself.
unfoldable pub format_uint : ℕ → Text
unfolding digits
format_uint n = digits (suc n) n []

-- `Itoa`
unfoldable pub itoa : ℤ → Text
itoa (pos n) = format_uint n
itoa (negsuc n) = b'-' ∷ format_uint (suc n)
