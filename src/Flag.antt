-- ===== src/Flag.antt =====
-- cmd/skopeo/flag.go: flag values that record whether the flag was given. A flag value is changed in
-- place by `Set`, so `set` takes the old value and returns the new one beside the error.
pub mod Laws
use skopeo.Prelude.{Bool, true, false, ◌||◌, [], ◌∷◌, if◌then◌else◌}
use skopeo.Prelude.Int.{ℤ}
use skopeo.Prelude.Texts.{Text, lit, ◌==◌}
use skopeo.Go.{GoError, Result, ok, err, errorf, Exec}
use skopeo.Go.Strconv.{NumError, syntax, range, value, bad, parse_int, itoa}

-- `strconv.ParseBool`
unfoldable pub parse_bool : Text → Result Bool
parse_bool s =
    if s == lit "1"
      || s == lit "t"
      || s == lit "T"
      || s == lit "TRUE"
      || s == lit "true"
      || s == lit "True"
    then ok true
    else if s == lit "0"
        || s == lit "f"
        || s == lit "F"
        || s == lit "FALSE"
        || s == lit "false"
        || s == lit "False"
    then ok false
    else err (errorf "strconv.ParseBool: parsing %q: invalid syntax" (s ∷ []))

-- `strconv.FormatBool`
unfoldable pub format_bool : Bool → Text
format_bool true = lit "true"
format_bool false = lit "false"

pub record OptionalBool : Type 0 where
  pub present : Bool
  pub value : Bool

pub record OptionalString : Type 0 where
  pub present : Bool
  pub value : Text

pub record OptionalInt : Type 0 where
  pub present : Bool
  pub value : ℤ

-- `internalNewOptionalBoolValue(p)`: what `*p` becomes.
unfoldable pub internal_new_optional_bool_value : OptionalBool → OptionalBool
internal_new_optional_bool_value p = record p { present = false }

unfoldable pub set_bool : Text → Exec OptionalBool (Unit {0})
set_bool s ob = elim (parse_bool s) [
  | ok v ↦ (ok tt, record ob { value = v; present = true })
  | err e ↦ (err e, ob)
]

unfoldable pub string_of_bool : OptionalBool → Text
string_of_bool ob = if ob.present then format_bool ob.value else []

-- `newOptionalStringValue(p)`: what `*p` becomes.
unfoldable pub new_optional_string_value : OptionalString → OptionalString
new_optional_string_value p = record p { present = false }

unfoldable pub set_string : Text → Exec OptionalString (Unit {0})
set_string s ob = (ok tt, record ob { value = s; present = true })

unfoldable pub string_of_string : OptionalString → Text
string_of_string ob = if ob.present then ob.value else []

-- `newOptionalIntValue(p)`: what `*p` becomes.
unfoldable pub new_optional_int_value : OptionalInt → OptionalInt
new_optional_int_value p = record p { present = false }

-- The `Error()` of a `*NumError` of `ParseInt`
abbrev pub num_error : Text → NumError → GoError
num_error s syntax = errorf "strconv.ParseInt: parsing %q: invalid syntax" (s ∷ [])
num_error s range = errorf "strconv.ParseInt: parsing %q: value out of range" (s ∷ [])

-- `strconv.IntSize` is 64.
unfoldable pub set_int : Text → Exec OptionalInt (Unit {0})
set_int s ob = elim (parse_int s) [
  | value v ↦ (ok tt, record ob { value = v; present = true })
  | bad e ↦ (err (num_error s e), ob)
]

unfoldable pub string_of_int : OptionalInt → Text
string_of_int ob = if ob.present then itoa ob.value else []
