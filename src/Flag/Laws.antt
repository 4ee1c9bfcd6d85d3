-- ===== src/Flag/Laws.antt =====
-- Printing a flag value and setting it again.
use skopeo.Prelude.{ℕ, ◌^◌, ltb, leb, ◌∷◌, [], ◌≡◌, refl, Bool, true, false, arith, if◌then◌else◌}
use skopeo.Prelude.Texts.{lit, ◌==◌}
use skopeo.Prelude.Int.{ℤ, pos}
use skopeo.Prelude.Texts.{Text}
use skopeo.Go.{Result, ok, err, errorf}
use skopeo.Go.Strconv.{value, bad, syntax, range, negate, IsInt64, parse_int}
use skopeo.Go.Strconv.RoundTrip.{parse_int-itoa}
use skopeo.Go.Strconv.Numerals.{Numeral, parse_int_lem}
use skopeo.Flag.{
  OptionalInt, set_int, string_of_int, OptionalBool, parse_bool, format_bool, set_bool,
  string_of_bool,
}

parse_bool-format_bool : (b : Bool) → parse_bool (format_bool b) ≡ ok b
unfolding parse_bool format_bool lit ◌==◌
parse_bool-format_bool true = refl
parse_bool-format_bool false = refl

parse_bool_syntax :
    (old : OptionalBool)
    → (set_bool (string_of_bool (record { present = false; value = false })) old).1 ≡ old
unfolding set_bool parse_bool string_of_bool lit ◌==◌
parse_bool_syntax old = refl

set_bool-string_of_bool :
    (ob old : OptionalBool)
    → (set_bool (string_of_bool ob) old).1 ≡ (if ob.present then ob else old)
unfolding set_bool string_of_bool
set_bool-string_of_bool ob old =
    ground (arith, parse_bool-format_bool ob.value, parse_bool_syntax old)

parse_int_blank : parse_int [] ≡ bad syntax
unfolding parse_int
parse_int_blank = refl

set_int-string_of_int :
    (ob old : OptionalInt)
    → IsInt64 ob.value
    → (set_int (string_of_int ob) old).1 ≡ (if ob.present then ob else old)
unfolding set_int string_of_int
set_int-string_of_int ob old fits = ground (arith, parse_int-itoa ob.value, parse_int_blank)

-- Setting a flag with a truth value to what `String` prints of a flag that was given makes the two
-- equal, and so does setting a flag with an integer, where the one that was given holds an integer of
-- 64 bits. Setting either to what `String` prints of a flag that was not given changes nothing.
pub round_trips :
    (ob old : OptionalBool) (oi old_int : OptionalInt)
    → IsInt64 oi.value
    → ((set_bool (string_of_bool ob) old).1 ≡ (if ob.present then ob else old))
      × ((set_int (string_of_int oi) old_int).1 ≡ (if oi.present then oi else old_int))
round_trips ob old oi old_int fits =
    (set_bool-string_of_bool ob old, set_int-string_of_int oi old_int fits)

-- How setting an integer flag to a text ends: it holds the value and was given, or the error says that
-- the value is out of range, and the flag is as before.
abbrev pub set_or_range : Text → Bool → ℤ → OptionalInt → Result (Unit {0}) × OptionalInt
set_or_range s fits v old =
    if fits
    then (ok tt, record { present = true; value = v })
    else (err (errorf "strconv.ParseInt: parsing %q: value out of range" (s ∷ [])), old)

set_int-parse_int :
    (s : Text) (old : OptionalInt) (fits : Bool) (v : ℤ)
    → parse_int s ≡ (if fits then value v else bad range)
    → set_int s old ≡ set_or_range s fits v old
unfolding set_int
set_int-parse_int s old true v h = rw (h, set_int)
set_int-parse_int s old false v h = rw (h, set_int)

-- Setting an integer flag to a numeral of base 2, 8, 10 or 16 without underscores, with or without a
-- sign: if the number has 64 bits with its sign, the flag holds it and was given; else there is a
-- range error, and the flag is as before.
pub set_int_lem :
    (t : Text) (n : ℕ) (old : OptionalInt)
    → Numeral t n
    → (set_int t old ≡ set_or_range t (ltb n (2 ^ 63)) (pos n) old)
      × (set_int (b'+' ∷ t) old ≡ set_or_range (b'+' ∷ t) (ltb n (2 ^ 63)) (pos n) old)
      × (set_int (b'-' ∷ t) old ≡ set_or_range (b'-' ∷ t) (leb n (2 ^ 63)) (negate n) old)
set_int_lem t n old numeral =
    let (plain, plus, minus) = parse_int_lem t n numeral in
    (
      set_int-parse_int t old _ _ plain,
      set_int-parse_int (b'+' ∷ t) old _ _ plus,
      set_int-parse_int (b'-' ∷ t) old _ _ minus,
    )
