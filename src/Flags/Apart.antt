-- ===== src/Flags/Apart.antt =====
-- The flags of one image of a copy or of a synchronization leave the other image alone.
use skopeo.Prelude.{◌≡◌, refl, sym, ap, ◌∙◌, Bool, true, ◌||◌, List, [], ◌∷◌, if◌then◌else◌}
use skopeo.Prelude.Lists.{All}
use skopeo.Prelude.Texts.{Text, lit, ◌==◌, has_prefix}
use mathlib.Core.List.{head-eq_of_cons-eq, tail-eq_of_cons-eq}
use skopeo.Options.{ImageOptions, ImageDestOptions}
use skopeo.Flags.Pairs.{PairCommand, copy, sync, OptionsOf, flags_of}
use skopeo.Flags.{FlagDef, FlagSet, Values, optional_bool_flag}
use skopeo.Flags.Cells.{Cells}
use skopeo.Flags.Commands.{copy_flags, sync_flags}
use skopeo.Flags.Given.{At, here, there, Given, all_given, give}

module _ {S A : Type 0} (mine : Text → Bool) (read : S → A) where
  -- What the flags named `mine` do to the value that `read` reads, and nothing.
  abbrev pub touched : FlagSet S → List (Text → S → A)
  touched [] = []
  touched (f ∷ fs) = (λ v s. if mine f.name then read (f.set v s).1 else read s) ∷ touched fs

  abbrev pub untouched : FlagSet S → List (Text → S → A)
  untouched [] = []
  untouched (f ∷ fs) = (λ v s. read s) ∷ untouched fs

  effect_of :
      {f : FlagDef S} {fs : FlagSet S}
      → touched fs ≡ untouched fs
      → At f fs
      → (v : Text) (s : S) → (if mine f.name then read (f.set v s).1 else read s) ≡ read s
  effect_of e here v s = ap (λ (k : Text → S → A). k v s) (head-eq_of_cons-eq e)
  effect_of e (there p) v s = effect_of (tail-eq_of_cons-eq e) p v s

  pub Given-untouched :
      {fs : FlagSet S} {settings : List (Text × Text)} {s t : S}
      → touched fs ≡ untouched fs
      → All (λ (setting : Text × Text). mine setting.0 ≡ true) settings
      → Given fs settings s t
      → read t ≡ read s
  Given-untouched e own all_given = refl
  Given-untouched e own (give {s} f v p sets rest) =
      let step : read (f.set v s).1 ≡ read s = rw own.0 at (effect_of e p v s) in
      Given-untouched e own.1 rest ∙ ap (λ r. read r.1) (sym sets) ∙ step

pub data Side : Type 0 where
  source destination : Side

-- What the flags of an image begin with, and their old name for the credentials.
abbrev prefix_of : Side → Text
prefix_of source = lit "src-"
prefix_of destination = lit "dest-"

abbrev alias_of : Side → Text
alias_of source = lit "screds"
alias_of destination = lit "dcreds"

abbrev pub is_flag_of : Side → Text → Bool
is_flag_of side name = has_prefix name (prefix_of side) || name == alias_of side

abbrev pub AllOf : Side → List (Text × Text) → Type 0
AllOf side = All (λ (setting : Text × Text). is_flag_of side setting.0 ≡ true)

-- The options of the images as the flags change them.
abbrev src_image : (c : PairCommand) → Cells (OptionsOf c) → ImageOptions
src_image copy cells = cells.options.src_image
src_image sync cells = cells.options.src_image

abbrev dest_image : (c : PairCommand) → Cells (OptionsOf c) → ImageDestOptions
dest_image copy cells = cells.options.dest_image
dest_image sync cells = cells.options.dest_image

-- The options of the other image are the same in both.
abbrev pub OtherKept : (c : PairCommand) → Side → Cells (OptionsOf c) → Cells (OptionsOf c) → Type 0
OtherKept c source cells cells' = dest_image c cells' ≡ dest_image c cells
OtherKept c destination cells cells' = src_image c cells' ≡ src_image c cells

module _ (V : Values) where
  src_untouched :
      (c : PairCommand)
      → touched (is_flag_of destination) (src_image c) (flags_of V c)
        ≡ untouched (is_flag_of destination) (src_image c) (flags_of V c)
  unfolding copy_flags sync_flags optional_bool_flag lit ◌==◌ has_prefix
  src_untouched copy = refl
  src_untouched sync = refl

  dest_untouched :
      (c : PairCommand)
      → touched (is_flag_of source) (dest_image c) (flags_of V c)
        ≡ untouched (is_flag_of source) (dest_image c) (flags_of V c)
  unfolding copy_flags sync_flags optional_bool_flag lit ◌==◌ has_prefix
  dest_untouched copy = refl
  dest_untouched sync = refl

  -- Flags of `skopeo copy` or `skopeo sync` for one of the images, in any number and order, change
  -- nothing in the options of the other image.
  pub pair_apart :
      (c : PairCommand) (side : Side) (settings : List (Text × Text))
      (cells cells' : Cells (OptionsOf c))
      → Given (flags_of V c) settings cells cells'
      → AllOf side settings
      → OtherKept c side cells cells'
  pair_apart c source settings cells cells' given own =
      Given-untouched _ _ (dest_untouched c) own given
  pair_apart c destination settings cells cells' given own =
      Given-untouched _ _ (src_untouched c) own given
