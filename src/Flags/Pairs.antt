-- ===== src/Flags/Pairs.antt =====
-- From the flags of `skopeo copy` and `skopeo sync` to the contexts of their two images.
use skopeo.Prelude.{◌≡◌, refl, ap, ◌∙◌, Bool, false, List, [], ◌∷◌}
use skopeo.Prelude.Texts.{Text, lit, ◌==◌}
use skopeo.Go.{Result, ok}
use skopeo.Flag.{OptionalBool}
use skopeo.External.Context.{Kinds, SystemContext}
use skopeo.Options.{
  GlobalOptions, DeprecatedTlsVerifyOption, ImageOptions, ImageDestOptions, image_system_context,
  dest_system_context,
}
use skopeo.Options.Laws.{dest-image, skip_of_first, tls_flags, tls_of_first}
use skopeo.Copy.{CopyCmdOptions}
use skopeo.Sync.Run.{SyncOptions}
use skopeo.Flags.{FlagSet, Values, optional_bool_flag}
use skopeo.Flags.Cells.{Cells, unset_bool, no_deprecated}
use skopeo.Flags.Starts.{new_copy_cells, load_copy, new_sync_cells, load_sync}
use skopeo.Flags.Commands.{copy_flags, sync_flags}
use skopeo.Flags.Given.{
  Given, after, effects, own_effects, Given-after, last_bool, change_bool, after_none,
}

-- The commands with two images.
pub data PairCommand : Type 0 where
  copy sync : PairCommand

abbrev pub OptionsOf : PairCommand → Type 0
OptionsOf copy = CopyCmdOptions
OptionsOf sync = SyncOptions

abbrev pub flags_of : Values → (c : PairCommand) → FlagSet (Cells (OptionsOf c))
flags_of V copy = copy_flags V
flags_of V sync = sync_flags V

abbrev pub new_cells_of : (c : PairCommand) → GlobalOptions → Text → Cells (OptionsOf c)
new_cells_of copy = new_copy_cells
new_cells_of sync = new_sync_cells

-- The options of the images when the command is called.
abbrev pub source_of : (c : PairCommand) → Cells (OptionsOf c) → ImageOptions
source_of copy cells = (load_copy cells).src_image
source_of sync cells = (load_sync cells).src_image

abbrev pub destination_of : (c : PairCommand) → Cells (OptionsOf c) → ImageDestOptions
destination_of copy cells = (load_copy cells).dest_image
destination_of sync cells = (load_sync cells).dest_image

-- The own flags of the images.
abbrev src_flag : (c : PairCommand) → Cells (OptionsOf c) → OptionalBool
src_flag copy cells = cells.options.src_image.tls_verify
src_flag sync cells = cells.options.src_image.tls_verify

abbrev dest_flag : (c : PairCommand) → Cells (OptionsOf c) → OptionalBool
dest_flag copy cells = cells.options.dest_image.image_options.tls_verify
dest_flag sync cells = cells.options.dest_image.image_options.tls_verify

module _ (V : Values) where
  -- The flags of a name, and no others, change what `read` reads.
  abbrev Owns : (c : PairCommand) → (Text → Bool) → (Cells (OptionsOf c) → OptionalBool) → Type 0
  Owns c mine read =
      effects mine change_bool read (flags_of V c)
      ≡ own_effects mine change_bool read (flags_of V c)

  src_tls : (c : PairCommand) → Owns c (λ n. n == lit "src-tls-verify") (src_flag c)
  unfolding copy_flags sync_flags optional_bool_flag lit ◌==◌
  src_tls copy = refl
  src_tls sync = refl

  dest_tls : (c : PairCommand) → Owns c (λ n. n == lit "dest-tls-verify") (dest_flag c)
  unfolding copy_flags sync_flags optional_bool_flag lit ◌==◌
  dest_tls copy = refl
  dest_tls sync = refl

  deprecated_tls :
      (c : PairCommand) → Owns c (λ n. n == lit "tls-verify") (λ cells. cells.deprecated.tls_verify)
  unfolding copy_flags sync_flags optional_bool_flag lit ◌==◌
  deprecated_tls copy = refl
  deprecated_tls sync = refl

  -- No flag of the command changes the flag of the program.
  global_tls : (c : PairCommand) → Owns c (λ n. false) (λ cells. cells.global.tls_verify)
  unfolding copy_flags sync_flags optional_bool_flag lit
  global_tls copy = refl
  global_tls sync = refl

  starts :
      (c : PairCommand) (global : GlobalOptions) (auth_file : Text)
      → ((new_cells_of c global auth_file).deprecated ≡ no_deprecated)
        × ((new_cells_of c global auth_file).global ≡ global)
        × (src_flag c (new_cells_of c global auth_file) ≡ unset_bool)
        × (dest_flag c (new_cells_of c global auth_file) ≡ unset_bool)
  unfolding new_copy_cells new_sync_cells
  starts copy global auth_file = (refl, refl, refl, refl)
  starts sync global auth_file = (refl, refl, refl, refl)

  source_flags :
      (c : PairCommand) (cells : Cells (OptionsOf c))
      → tls_flags (source_of c cells)
        ≡ src_flag c cells ∷ cells.deprecated.tls_verify ∷ cells.global.tls_verify ∷ []
  unfolding load_copy load_sync
  source_flags copy cells = refl
  source_flags sync cells = refl

  destination_flags :
      (c : PairCommand) (cells : Cells (OptionsOf c))
      → tls_flags (destination_of c cells).image_options
        ≡ dest_flag c cells ∷ cells.deprecated.tls_verify ∷ cells.global.tls_verify ∷ []
  unfolding load_copy load_sync
  destination_flags copy cells = refl
  destination_flags sync cells = refl

  module _ (c : PairCommand) (global : GlobalOptions) (auth_file : Text)
      {settings : List (Text × Text)} {cells : Cells (OptionsOf c)}
      (given : Given (flags_of V c) settings (new_cells_of c global auth_file) cells) where
    -- The flags that were given for the TLS checks of the image with a prefix: its own flag, the flag
    -- of the command, and the flag of the program.
    abbrev pub tls_given : Text → List OptionalBool
    tls_given name =
        last_bool name settings ∷ last_bool (lit "tls-verify") settings ∷ global.tls_verify ∷ []

    tls_of_global : cells.global.tls_verify ≡ global.tls_verify
    tls_of_global =
        let (_, new, _, _) = starts c global auth_file in
        Given-after (λ n. false) change_bool _ (global_tls c) given
        ∙ after_none change_bool settings _
        ∙ ap (λ (g : GlobalOptions). g.tls_verify) new

    tls_of_command : cells.deprecated.tls_verify ≡ last_bool (lit "tls-verify") settings
    tls_of_command =
        let (new, _, _, _) = starts c global auth_file in
        Given-after (λ n. n == lit "tls-verify") change_bool _ (deprecated_tls c) given
        ∙ ap
            (λ (d : DeprecatedTlsVerifyOption).
              after (λ n. n == lit "tls-verify") change_bool settings d.tls_verify)
            new

    source_given : tls_flags (source_of c cells) ≡ tls_given (lit "src-tls-verify")
    source_given =
        let mine : Text → Bool = λ n. n == lit "src-tls-verify" in
        let (_, _, new, _) = starts c global auth_file in
        let own =
          Given-after mine change_bool (src_flag c) (src_tls c) given
          ∙ ap (after mine change_bool settings) new in
        source_flags c cells ∙ (λ i. own i ∷ tls_of_command i ∷ tls_of_global i ∷ [])

    destination_given :
        tls_flags (destination_of c cells).image_options ≡ tls_given (lit "dest-tls-verify")
    destination_given =
        let mine : Text → Bool = λ n. n == lit "dest-tls-verify" in
        let (_, _, _, new) = starts c global auth_file in
        let own =
          Given-after mine change_bool (dest_flag c) (dest_tls c) given
          ∙ ap (after mine change_bool settings) new in
        destination_flags c cells ∙ (λ i. own i ∷ tls_of_command i ∷ tls_of_global i ∷ [])

    module _ (K : Kinds) (algorithm_by_name : Text → Result (K.Algorithm)) where
      -- After the flags `settings` of `skopeo copy` or `skopeo sync`, the context of each image that
      -- the options make skips the TLS check of registries as the last of its own flag says
      -- (`--src-tls-verify` or `--dest-tls-verify`), else the last `--tls-verify` of the command, else
      -- the flag of the program; with none of them it is undefined.
      pub pair_tls :
          {src_ctx dest_ctx : SystemContext K}
          → image_system_context K (source_of c cells) ≡ ok src_ctx
          → dest_system_context K algorithm_by_name (destination_of c cells) ≡ ok dest_ctx
          → (src_ctx.docker_insecure_skip_tls_verify
              ≡ skip_of_first (tls_given (lit "src-tls-verify")))
            × (dest_ctx.docker_insecure_skip_tls_verify
                ≡ skip_of_first (tls_given (lit "dest-tls-verify")))
      pair_tls {src_ctx} {dest_ctx} of_src of_dest =
          let (base, of_base, same) = dest-image K algorithm_by_name _ of_dest in
          (
            tls_of_first K _ {ctx = src_ctx} of_src ∙ ap skip_of_first source_given,
            same ∙ tls_of_first K _ {ctx = base} of_base ∙ ap skip_of_first destination_given,
          )
