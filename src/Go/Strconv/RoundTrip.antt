-- ===== src/Go/Strconv/RoundTrip.antt =====
-- Reading an integer that `Itoa` printed.
use skopeo.Prelude.{
  ℕ, zero, suc, ◌+◌, ◌*◌, ◌/◌, ◌%◌, ◌^◌, ◌≤◌, ◌<◌, ◌≡◌, refl, ◌∙◌, inl, inr, false, Bool-cases, [],
  ◌∷◌, ltb, leb, eqb, arith,
}
use skopeo.Prelude.Int.{ℤ, pos, negsuc}
use skopeo.Prelude.Texts.{Text}
use skopeo.Go.Strconv.{
  IsInt64, value, mark_of, add_digit, uint_loop, digits, format_uint, parse_uint, parse_int, itoa,
  digit,
}

mark_of_digit : (d : ℕ) → d < 10 → mark_of (d + b'0') ≡ digit d
unfolding mark_of
mark_of_digit d h = ground arith

add_digit_lem : (n d m : ℕ) → d < 10 → m < 2 ^ 64 → n * 10 + d ≡ m → add_digit 10 n d ≡ value m
unfolding add_digit
add_digit_lem n d m h fits e = ground arith

uint_loop_digit :
    (n d m : ℕ) (out : Text)
    → d < 10
    → m < 2 ^ 64
    → n * 10 + d ≡ m
    → uint_loop 10 false n ((d + b'0') ∷ out) ≡ uint_loop 10 false m out
unfolding uint_loop
uint_loop_digit n d m out h fits e = rw (mark_of_digit d h, add_digit_lem n d m h fits e, uint_loop)

-- Reading the digits of `n` gives `n`.
uint_loop-digits :
    (fuel n : ℕ) (out : Text)
    → n < fuel
    → n < 2 ^ 64
    → uint_loop 10 false 0 (digits fuel n out) ≡ uint_loop 10 false n out
unfolding digits
uint_loop-digits zero n out h fits = ground arith
uint_loop-digits (suc fuel) n out h fits = elim (Bool-cases (ltb n 10)) [
  | inl p ↦ rw p (uint_loop_digit 0 n n out (ground arith) fits (omega arith))
  | inr p ↦
      let next = uint_loop_digit (n / 10) (n % 10) n out (omega arith) fits (omega arith) in
      let first =
        uint_loop-digits fuel (n / 10) ((n % 10 + b'0') ∷ out) (ground arith) (omega arith) in
      rw p (first ∙ next)
]

-- The digits of a positive number begin with one of 1 to 9.
digits_head :
    (fuel n : ℕ) (out : Text)
    → n < fuel
    → 0 < n
    → (c : ℕ) × (s : Text) × (digits fuel n out ≡ c ∷ s) × (b'0' < c) × (c ≤ b'9')
unfolding digits
digits_head zero n out h pos_n = absurd (omega arith)
digits_head (suc fuel) n out h pos_n = elim (Bool-cases (ltb n 10)) [
  | inl p ↦ (n + b'0', out, rw p, omega arith, ground arith)
  | inr p ↦ rw p (digits_head fuel (n / 10) ((n % 10 + b'0') ∷ out) (ground arith) (ground arith))
]

parse_uint_of_digit :
    (c : ℕ) (s : Text) (n : ℕ)
    → b'0' < c
    → c ≤ b'9'
    → uint_loop 10 false 0 (c ∷ s) ≡ value (false, n)
    → parse_uint (c ∷ s) ≡ value n
unfolding parse_uint
parse_uint_of_digit c [] n h k e = let z : eqb c b'0' ≡ false = ground arith in rw (z, e)
parse_uint_of_digit c (d ∷ s) n h k e = let z : eqb c b'0' ≡ false = ground arith in rw (z, e)

-- What `format_uint` prints, and how it is read.
record Printed (n : ℕ) : Type 0 where
  first : ℕ
  rest : Text
  prints : format_uint n ≡ first ∷ rest
  no_sign : (eqb first b'+' ≡ false) × (eqb first b'-' ≡ false)
  reads : parse_uint (first ∷ rest) ≡ value n

printed : (n : ℕ) → n < 2 ^ 64 → Printed n
unfolding format_uint parse_uint mark_of
printed zero fits = record {
  first = b'0';
  rest = [];
  prints = refl;
  no_sign = (refl, refl);
  reads = refl;
}
printed (suc n) fits =
    let (c, s, e, low, high) = digits_head (suc (suc n)) (suc n) [] (omega arith) (omega arith) in
    record {
      first = c;
      rest = s;
      prints = e;
      no_sign = (ground arith, ground arith);
      reads =
          parse_uint_of_digit c s (suc n) low high
            (rw (← e) (uint_loop-digits (suc (suc n)) (suc n) [] (omega arith) fits));
    }

-- Reading what `Itoa` printed of a 64-bit integer gives the integer.
pub parse_int-itoa : (v : ℤ) → IsInt64 v → parse_int (itoa v) ≡ value v
unfolding parse_int itoa
parse_int-itoa (pos n) fits =
    let p = printed n (omega arith) in
    let small : leb (2 ^ 63) n ≡ false = ground arith in
    rw (p.prints, p.no_sign.0, p.no_sign.1, p.reads, small)
parse_int-itoa (negsuc n) fits =
    let p = printed (suc n) (omega arith) in
    let small : ltb (2 ^ 63) (suc n) ≡ false = ground arith in rw (p.prints, p.reads, small)
