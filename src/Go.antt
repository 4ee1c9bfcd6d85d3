-- ===== src/Go.antt =====
-- The Go idioms of the program: errors as values, functions with effects, deferred calls.
pub mod Path
pub mod Retry
pub mod Laws
pub mod Close
pub mod Strconv
use skopeo.Prelude.{◌≡◌, refl, Bool, true, false, Option, none, some, String, List, if◌then◌else◌}
use skopeo.Prelude.Texts.{Text}

-- The errors of called code that the program tells apart: `os.IsNotExist` and
-- `docker.ErrUnauthorizedForCredentials`.
pub data ErrorKind : Type 0 where
  plain not_exist unauthorized : ErrorKind

-- An error that a callee outside the repository returned, with its `Error()` text.
pub record Foreign : Type 0 where
  pub kind : ErrorKind
  pub message : Text

pub data GoError : Type 0 where
  foreign : Foreign → GoError
  -- `errors.New(format)`, `fmt.Errorf(format, args...)`
  errorf : String → List Text → GoError
  -- `fmt.Errorf(format, args..., err)`: the text of `err` is the last argument.
  errorf_of : String → List Text → GoError → GoError
  -- `errors.Wrapf(err, format, args...)` of an `err` that is not nil
  wrapped : GoError → String → List Text → GoError
  -- The same, where the last argument is an error.
  wrapped_of : GoError → String → List Text → GoError → GoError
  -- `errorShouldDisplayUsage{err}`
  should_display_usage : GoError → GoError
  -- `filepath.SkipDir`
  skip_dir : GoError
  -- A call of a method through a nil interface or pointer, which ends the program.
  nil_dereference : GoError

pub data Result {ℓ} (A : Type ℓ) : Type ℓ where
  ok : A → Result A
  err : GoError → Result A

-- `os.IsNotExist(err)`, which does not look into wrapped errors.
unfoldable pub is_not_exist : GoError → Bool
is_not_exist (foreign f) = elim f.kind [ not_exist ↦ true | _ ↦ false ]
is_not_exist _ = false

-- A function with effects on the world outside the program. It returns a value or an error, and the
-- world as it left it in both cases.
abbrev pub Exec {ℓ} : Type ℓ → Type ℓ → Type ℓ
Exec W A = W → Result A × W

module _ {ℓ} {W A : Type ℓ} where
  abbrev pub pure : A → Exec W A
  pure a w = (ok a, w)

  abbrev pub fail : GoError → Exec W A
  fail e w = (err e, w)

  abbrev pub lift : Result A → Exec W A
  lift r w = (r, w)

module _ {ℓ} {W A B : Type ℓ} where
  abbrev pub continue : Result A × W → (A → Exec W B) → Result B × W
  continue (ok a, w) f = f a w
  continue (err e, w) f = (err e, w)

  infixl 5 ◌>>=◌ ◌>>◌
  -- `a, err := m(); if err != nil { return err }` and the rest of the function.
  abbrev pub ◌>>=◌ : Exec W A → (A → Exec W B) → Exec W B
  ◌>>=◌ m f w = continue (m w) f

  abbrev pub ◌>>◌ : Exec W A → Exec W B → Exec W B
  m >> n = m >>= λ _. n

-- `if test { return err }`
abbrev pub reject_if {ℓ} : {W : Type ℓ} → Bool → GoError → W → Result (Unit {ℓ}) × W
reject_if true e w = (err e, w)
reject_if false e w = (ok tt, w)

module _ {ℓ} {A : Type ℓ} where
  abbrev pub map_error : (GoError → GoError) → Result A → Result A
  map_error f (ok a) = ok a
  map_error f (err e) = err (f e)

  -- The error of a result, as Go functions return it: none is nil.
  abbrev pub error_of : Result A → Option GoError
  error_of (ok a) = none
  error_of (err e) = some e

-- `if err := m(); err != nil { return wrap(err) }`
abbrev pub or_wrap {ℓ} : {W A : Type ℓ} → (GoError → GoError) → Exec W A → Exec W A
or_wrap f m w = let (r, w') = m w in (map_error f r, w')
