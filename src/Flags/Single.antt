-- ===== src/Flags/Single.antt =====
-- The commands with one image, their flags and their structures: `skopeo inspect`, `skopeo delete`,
-- `skopeo layers` and `skopeo list-tags`.
pub mod Context
use skopeo.Prelude.{◌≡◌, refl, ap, ◌∙◌, Bool, false, List, [], ◌∷◌, if◌then◌else◌}
use skopeo.Prelude.Texts.{Text, lit, ◌==◌}
use skopeo.Go.{ok}
use skopeo.Flag.{OptionalBool, OptionalString, set_string}
use skopeo.External.Context.{Kinds, SystemContext}
use skopeo.Options.{GlobalOptions, SharedImageOptions, ImageOptions, image_system_context}
use skopeo.Options.Laws.{skip_of_first, tls_flags, tls_of_first, auth_file_of, kept_of}
use skopeo.Inspect.{InspectOptions}
use skopeo.Delete.{DeleteOptions}
use skopeo.Layers.{LayersOptions}
use skopeo.ListTags.{TagsOptions}
use skopeo.Flags.{FlagSet, Values, optional_bool_flag}
use skopeo.Flags.Cells.{Cells, unset_bool, unset_string}
use skopeo.Flags.Starts.{
  new_inspect_cells, load_inspect, new_delete_cells, load_delete, new_layers_cells, load_layers,
  new_tags_cells, load_tags,
}
use skopeo.Flags.Commands.{inspect_flags, delete_flags, layers_flags, tags_flags}
use skopeo.Flags.Given.{
  Given, after, effects, own_effects, Given-after, last_bool, change_bool, after_none,
}

pub data SingleCommand : Type 0 where
  inspect delete layers list_tags : SingleCommand

abbrev pub OptionsOf : SingleCommand → Type 0
OptionsOf inspect = InspectOptions
OptionsOf delete = DeleteOptions
OptionsOf layers = LayersOptions
OptionsOf list_tags = TagsOptions

abbrev pub flags_of : Values → (c : SingleCommand) → FlagSet (Cells (OptionsOf c))
flags_of V inspect = inspect_flags V
flags_of V delete = delete_flags V
flags_of V layers = layers_flags V
flags_of V list_tags = tags_flags V

abbrev pub new_cells_of : (c : SingleCommand) → GlobalOptions → Text → Cells (OptionsOf c)
new_cells_of inspect = new_inspect_cells
new_cells_of delete = new_delete_cells
new_cells_of layers = new_layers_cells
new_cells_of list_tags = new_tags_cells

-- The options of the image as the flags change them, and when the command is called.
abbrev pub given_image : (c : SingleCommand) → Cells (OptionsOf c) → ImageOptions
given_image inspect cells = cells.options.image
given_image delete cells = cells.options.image
given_image layers cells = cells.options.image
given_image list_tags cells = cells.options.image

abbrev pub image_of : (c : SingleCommand) → Cells (OptionsOf c) → ImageOptions
image_of inspect cells = (load_inspect cells).image
image_of delete cells = (load_delete cells).image
image_of layers cells = (load_layers cells).image
image_of list_tags cells = (load_tags cells).image

pub starts :
    (c : SingleCommand) (global : GlobalOptions) (auth_file : Text)
    → let cells : Cells (OptionsOf c) = new_cells_of c global auth_file in
      (cells.global ≡ global)
      × (cells.shared.auth_file_path ≡ auth_file)
      × ((given_image c cells).tls_verify ≡ unset_bool)
      × ((given_image c cells).auth_file_path ≡ unset_string)
      × ((given_image c cells).docker_cert_path ≡ [])
unfolding new_inspect_cells new_delete_cells new_layers_cells new_tags_cells
starts inspect global auth_file = (refl, refl, refl, refl, refl)
starts delete global auth_file = (refl, refl, refl, refl, refl)
starts layers global auth_file = (refl, refl, refl, refl, refl)
starts list_tags global auth_file = (refl, refl, refl, refl, refl)

pub loads :
    (c : SingleCommand) (cells : Cells (OptionsOf c))
    → (tls_flags (image_of c cells)
        ≡ (given_image c cells).tls_verify ∷ cells.global.tls_verify ∷ [])
      × ((image_of c cells).global ≡ cells.global)
      × ((image_of c cells).shared ≡ cells.shared)
      × ((image_of c cells).auth_file_path ≡ (given_image c cells).auth_file_path)
      × ((image_of c cells).docker_cert_path ≡ (given_image c cells).docker_cert_path)
unfolding load_inspect load_delete load_layers load_tags
loads inspect cells = (refl, refl, refl, refl, refl)
loads delete cells = (refl, refl, refl, refl, refl)
loads layers cells = (refl, refl, refl, refl, refl)
loads list_tags cells = (refl, refl, refl, refl, refl)
