-- ===== src/Flags.antt =====
-- Flag sets of package pflag, as far as the commands fill them: the flags of a command, each with the
-- place that it writes to.
pub mod Image
pub mod Cells
pub mod Starts
pub mod Commands
pub mod Auth
pub mod Given
pub mod Pairs
pub mod Single
pub mod Own
pub mod Login
pub mod Apart
use skopeo.Prelude.{Bool, true, false, List, [], ◌∷◌, ◌++◌, if◌then◌else◌}
use skopeo.Prelude.Int.{ℤ}
use skopeo.Prelude.Texts.{Text, lit}
use skopeo.Go.{Exec}
use skopeo.Flag.{OptionalBool, OptionalString, OptionalInt, set_bool, set_string, set_int}

-- A pointer into the structures `S` of a command.
pub record Ptr (S A : Type 0) : Type 0 where
  pub get : S → A
  pub put : A → S → S

-- `&p.field`
abbrev pub field : {S A B : Type 0} → Ptr S A → (A → B) → (B → A → A) → Ptr S B
field p read write = record { get = λ s. read (p.get s); put = λ b s. p.put (write b (p.get s)) s }

-- A `pflag.Flag`: `set` is the `Set` of its value.
pub record FlagDef (S : Type 0) : Type 0 where
  pub name : Text
  pub shorthand : Text
  pub no_opt_def_val : Text
  pub hidden : Bool
  pub set : Text → Exec S (Unit {0})

-- A `pflag.FlagSet`, in the order of registration. `AddFlagSet` passes over a flag whose name is
-- there already, and a registration under such a name panics, so that a list stands only for flags with
-- different names.
abbrev pub FlagSet : Type 0 → Type 0
FlagSet S = List (FlagDef S)

-- The values of the flags that package pflag implements.
pub record Values : Type 0 where
  pub set_string_var : Text → Exec Text (Unit {0})
  pub set_bool_var : Text → Exec Bool (Unit {0})
  pub set_int_var : Text → Exec ℤ (Unit {0})
  pub set_duration_var : Text → Exec ℤ (Unit {0})
  pub set_string_slice_var : Text → Exec (List Text) (Unit {0})
  pub set_int_slice_var : Text → Exec (List ℤ) (Unit {0})

module _ {S : Type 0} where
  abbrev pub through : {A : Type 0} → Ptr S A → Exec A (Unit {0}) → Exec S (Unit {0})
  through p m s = let (r, a) = m (p.get s) in (r, p.put a s)

  -- `fs.VarP(value, name, shorthand, usage)`
  abbrev pub var_p : Text → Text → (Text → Exec S (Unit {0})) → FlagDef S
  var_p name shorthand set = record {
    name = name;
    shorthand = shorthand;
    no_opt_def_val = [];
    hidden = false;
    set = set;
  }

  -- `optionalBoolFlag`
  unfoldable pub optional_bool_flag : Ptr S OptionalBool → Text → FlagDef S
  optional_bool_flag p name = record (var_p name [] (λ v. through p (set_bool v))) {
    no_opt_def_val = lit "true";
  }

  abbrev pub optional_string_flag : Ptr S OptionalString → Text → Text → FlagDef S
  optional_string_flag p name shorthand = var_p name shorthand (λ v. through p (set_string v))

  abbrev pub optional_int_flag : Ptr S OptionalInt → Text → FlagDef S
  optional_int_flag p name = var_p name [] (λ v. through p (set_int v))

  module _ (V : Values) where
    abbrev pub string_var : Ptr S Text → Text → Text → FlagDef S
    string_var p name shorthand = var_p name shorthand (λ v. through p (V.set_string_var v))

    -- A flag of type bool may stand without a value.
    abbrev pub bool_var : Ptr S Bool → Text → Text → FlagDef S
    bool_var p name shorthand = record (var_p name shorthand (λ v. through p (V.set_bool_var v))) {
      no_opt_def_val = lit "true";
    }

    abbrev pub int_var : Ptr S ℤ → Text → FlagDef S
    int_var p name = var_p name [] (λ v. through p (V.set_int_var v))

    abbrev pub duration_var : Ptr S ℤ → Text → FlagDef S
    duration_var p name = var_p name [] (λ v. through p (V.set_duration_var v))

    abbrev pub string_slice_var : Ptr S (List Text) → Text → FlagDef S
    string_slice_var p name = var_p name [] (λ v. through p (V.set_string_slice_var v))

    abbrev pub int_slice_var : Ptr S (List ℤ) → Text → FlagDef S
    int_slice_var p name = var_p name [] (λ v. through p (V.set_int_slice_var v))
