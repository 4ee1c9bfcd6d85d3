-- ===== src/Flags/Starts.antt =====
-- The structures of the commands: as they are when the flags are registered, and what `opts` is when
-- `run` is called. The file for credentials is the value of $REGISTRY_AUTH_FILE.
use skopeo.Prelude.{false, true, none, some, []}
use skopeo.Prelude.Texts.{Text}
use skopeo.Options.{GlobalOptions, SharedImageOptions, ImageOptions}
use skopeo.Copy.{CopyCmdOptions}
use skopeo.Sync.Run.{SyncOptions}
use skopeo.Inspect.{InspectOptions}
use skopeo.Delete.{DeleteOptions}
use skopeo.Layers.{LayersOptions}
use skopeo.ListTags.{TagsOptions}
use skopeo.Signing.{StandaloneSignOptions}
use skopeo.Login.{AuthLoginOptions, AuthLogoutOptions, LoginOptions, LogoutOptions}
use skopeo.Flags.Cells.{
  Cells, load_image, unset_bool, unset_string, no_retry, no_deprecated, new_image_options,
  new_image_dest_options,
}

-- `copyCmd`
unfoldable pub new_copy_cells : GlobalOptions → Text → Cells CopyCmdOptions
unfolding new_image_options new_image_dest_options
new_copy_cells global auth_file =
    let shared : SharedImageOptions = record { auth_file_path = auth_file } in
    let image = new_image_options global shared (some no_deprecated) in
    record {
      global = global;
      shared = shared;
      deprecated = no_deprecated;
      options = record {
        global = global;
        deprecated_tls_verify = no_deprecated;
        src_image = image;
        dest_image = new_image_dest_options image;
        retry_opts = no_retry;
        additional_tags = [];
        remove_signatures = false;
        sign_by_fingerprint = [];
        digest_file = [];
        format = unset_string;
        quiet = false;
        all = false;
        encrypt_layer = [];
        encryption_keys = [];
        decryption_keys = [];
      };
    }

unfoldable pub load_copy : Cells CopyCmdOptions → CopyCmdOptions
load_copy cells = record cells.options {
  global = cells.global;
  deprecated_tls_verify = cells.deprecated;
  src_image = load_image true cells cells.options.src_image;
  dest_image = record cells.options.dest_image {
    image_options = load_image true cells cells.options.dest_image.image_options;
  };
}

-- `syncCmd`
unfoldable pub new_sync_cells : GlobalOptions → Text → Cells SyncOptions
unfolding new_image_options new_image_dest_options
new_sync_cells global auth_file =
    let shared : SharedImageOptions = record { auth_file_path = auth_file } in
    let image = new_image_options global shared (some no_deprecated) in
    record {
      global = global;
      shared = shared;
      deprecated = no_deprecated;
      options = record {
        global = global;
        deprecated_tls_verify = no_deprecated;
        src_image = image;
        dest_image = new_image_dest_options image;
        retry_opts = no_retry;
        remove_signatures = false;
        sign_by_fingerprint = [];
        format = unset_string;
        source = [];
        destination = [];
        scoped = false;
        all = false;
      };
    }

unfoldable pub load_sync : Cells SyncOptions → SyncOptions
load_sync cells = record cells.options {
  global = cells.global;
  deprecated_tls_verify = cells.deprecated;
  src_image = load_image true cells cells.options.src_image;
  dest_image = record cells.options.dest_image {
    image_options = load_image true cells cells.options.dest_image.image_options;
  };
}

-- The structures of a command with one image.
abbrev one_image : {O : Type 0} → (ImageOptions → O) → GlobalOptions → Text → Cells O
one_image options global auth_file =
    let shared : SharedImageOptions = record { auth_file_path = auth_file } in
    record {
      global = global;
      shared = shared;
      deprecated = no_deprecated;
      options = options (new_image_options global shared none);
    }

-- `inspectCmd`
unfoldable pub new_inspect_cells : GlobalOptions → Text → Cells InspectOptions
unfolding new_image_options
new_inspect_cells global =
    one_image
      (λ image. record {
        global = global;
        image = image;
        retry_opts = no_retry;
        format = [];
        raw = false;
        config = false;
      })
      global

unfoldable pub load_inspect : Cells InspectOptions → InspectOptions
load_inspect cells = record cells.options {
  global = cells.global;
  image = load_image false cells cells.options.image;
}

-- `deleteCmd`
unfoldable pub new_delete_cells : GlobalOptions → Text → Cells DeleteOptions
unfolding new_image_options
new_delete_cells global =
    one_image (λ image. record { global = global; image = image; retry_opts = no_retry }) global

unfoldable pub load_delete : Cells DeleteOptions → DeleteOptions
load_delete cells = record cells.options {
  global = cells.global;
  image = load_image false cells cells.options.image;
}

-- `layersCmd`
unfoldable pub new_layers_cells : GlobalOptions → Text → Cells LayersOptions
unfolding new_image_options
new_layers_cells global =
    one_image (λ image. record { global = global; image = image; retry_opts = no_retry }) global

unfoldable pub load_layers : Cells LayersOptions → LayersOptions
load_layers cells = record cells.options {
  global = cells.global;
  image = load_image false cells cells.options.image;
}

-- `tagsCmd`
unfoldable pub new_tags_cells : GlobalOptions → Text → Cells TagsOptions
unfolding new_image_options
new_tags_cells global =
    one_image (λ image. record { global = global; image = image; retry_opts = no_retry }) global

unfoldable pub load_tags : Cells TagsOptions → TagsOptions
load_tags cells = record cells.options {
  global = cells.global;
  image = load_image false cells cells.options.image;
}

-- A command with no image has no file for credentials of its own.
abbrev no_image : {O : Type 0} → O → GlobalOptions → Cells O
no_image options global = record {
  global = global;
  shared = record { auth_file_path = [] };
  deprecated = no_deprecated;
  options = options;
}

-- `standaloneSignCmd`
unfoldable pub new_standalone_sign_cells : GlobalOptions → Cells StandaloneSignOptions
new_standalone_sign_cells = no_image (record { output = [] })

module _ {Settings : Type 0} where
  -- `loginCmd`, with the new options of package auth
  unfoldable pub new_login_cells :
      AuthLoginOptions Settings → GlobalOptions → Cells (LoginOptions Settings)
  new_login_cells login_opts global =
      no_image (record { global = global; login_opts = login_opts; tls_verify = unset_bool }) global

  unfoldable pub load_login : Cells (LoginOptions Settings) → LoginOptions Settings
  load_login cells = record cells.options { global = cells.global }

  -- `logoutCmd`
  unfoldable pub new_logout_cells :
      AuthLogoutOptions Settings → GlobalOptions → Cells (LogoutOptions Settings)
  new_logout_cells logout_opts global =
      no_image (record { global = global; logout_opts = logout_opts; tls_verify = unset_bool })
        global

  unfoldable pub load_logout : Cells (LogoutOptions Settings) → LogoutOptions Settings
  load_logout cells = record cells.options { global = cells.global }
