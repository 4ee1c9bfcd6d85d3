-- ===== src/Flags/Given.antt =====
-- Giving flags to a command, one after the other, and what a structure holds after that.
use skopeo.Prelude.{◌≡◌, refl, sym, ap, ◌∙◌, Bool, false, List, [], ◌∷◌, if◌then◌else◌}
use mathlib.Core.List.{head-eq_of_cons-eq, tail-eq_of_cons-eq}
use skopeo.Prelude.Texts.{Text, ◌==◌}
use skopeo.Go.{ok}
use skopeo.Flag.{OptionalBool, set_bool}
use skopeo.Flags.Cells.{unset_bool}
use skopeo.Flags.{FlagDef, FlagSet}

module _ {S : Type 0} where
  pub data At (f : FlagDef S) : FlagSet S → Type 0 where
    here : {fs : FlagSet S} → At f (f ∷ fs)
    there : {g : FlagDef S} {fs : FlagSet S} → At f fs → At f (g ∷ fs)

  -- `Parse` has found the flags and values `settings`, in this order, and every `Set` succeeded.
  pub data Given (fs : FlagSet S) : List (Text × Text) → S → S → Type 0 where
    all_given : {s : S} → Given fs [] s s
    give :
        {settings : List (Text × Text)} {s t u : S} (f : FlagDef S) (v : Text)
        → At f fs
        → f.set v s ≡ (ok tt, t)
        → Given fs settings t u
        → Given fs ((f.name, v) ∷ settings) s u

-- What becomes of a value that the flags with the names `mine` change.
abbrev pub after {ℓ} : {A : Type ℓ} → (Text → Bool) → (Text → A → A) → List (Text × Text) → A → A
after mine change [] a = a
after mine change ((name, v) ∷ settings) a =
    after mine change settings (if mine name then change v a else a)

module _ {S A : Type 0} (mine : Text → Bool) (change : Text → A → A) (read : S → A) where
  -- What each flag does to the value that `read` reads, and what it should do.
  abbrev pub effects : FlagSet S → List (Text → S → A)
  effects [] = []
  effects (f ∷ fs) = (λ v s. read (f.set v s).1) ∷ effects fs

  abbrev pub own_effects : FlagSet S → List (Text → S → A)
  own_effects [] = []
  own_effects (f ∷ fs) = (λ v s. if mine f.name then change v (read s) else read s) ∷ own_effects fs

  effect_of :
      {f : FlagDef S} {fs : FlagSet S}
      → effects fs ≡ own_effects fs
      → At f fs
      → (v : Text) (s : S)
      → read (f.set v s).1 ≡ (if mine f.name then change v (read s) else read s)
  effect_of e here v s = ap (λ (k : Text → S → A). k v s) (head-eq_of_cons-eq e)
  effect_of e (there p) v s = effect_of (tail-eq_of_cons-eq e) p v s

  -- Where the flags named `mine`, and no others, change a value, it holds their changes in order.
  pub Given-after :
      {fs : FlagSet S} {settings : List (Text × Text)} {s t : S}
      → effects fs ≡ own_effects fs
      → Given fs settings s t
      → read t ≡ after mine change settings (read s)
  Given-after e all_given = refl
  Given-after e (give {settings} {s} {t = u} f v p sets rest) =
      let step : read u ≡ (if mine f.name then change v (read s) else read s) =
        sym (ap (λ r. read r.1) sets) ∙ effect_of e p v s in
      Given-after e rest ∙ ap (after mine change settings) step

abbrev pub change_bool : Text → OptionalBool → OptionalBool
change_bool v ob = (set_bool v ob).1

-- What a flag of type `optionalBool` holds after the settings, if it was not given before.
abbrev pub last_bool : Text → List (Text × Text) → OptionalBool
last_bool name settings = after (λ n. n == name) change_bool settings unset_bool

pub after_none {ℓ} :
    {A : Type ℓ} (change : Text → A → A) (settings : List (Text × Text)) (a : A)
    → after (λ n. false) change settings a ≡ a
after_none change [] a = refl
after_none change ((name, v) ∷ settings) a = after_none change settings a
