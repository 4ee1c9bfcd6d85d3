-- ===== src/Tests/OptionTests.antt =====
-- Flags and the contexts that they make.
use skopeo.Prelude.{◌≡◌, refl, ◌↔◌, true, false, not, if◌then◌else◌, some, [], ◌≢◌}
use skopeo.Prelude.Int.{pos}
use skopeo.Prelude.Texts.{lit, cut, split_n2}
use skopeo.Prelude.Texts.Laws.{Lacks}
use skopeo.Go.{ok, err, GoError}
use skopeo.Flag.{OptionalBool, OptionalString}
use skopeo.External.Context.{SystemContext}
use skopeo.Options.{
  GlobalOptions, ImageOptions, ImageDestOptions, image_system_context, image_base_context,
  with_token,
}
use skopeo.Options.Creds.{parse_creds, get_docker_auth}
use skopeo.Options.Creds.Laws.{Spells, parse_creds_iff}
use skopeo.Options.Laws.{skip_of_first, tls_flags, IsAuth, flags_decide, refused_iff, CredsRefused}
use skopeo.Tests.World.{kinds}

abbrev unset : OptionalBool
unset = record { present = false; value = false }

abbrev given_false : OptionalBool
given_false = record { present = true; value = false }

abbrev no_text : OptionalString
no_text = record { present = false; value = [] }

abbrev pub global : GlobalOptions
global = record {
  debug = false;
  tls_verify = record { present = true; value = true };
  policy_path = [];
  insecure_policy = true;
  registries_dir_path = [];
  override_arch = [];
  override_os = [];
  override_variant = [];
  command_timeout = pos 0;
  registries_conf_path = [];
  tmp_dir = [];
}

-- `--tls-verify` before the command, `--tls-verify=false` after it, and `--creds joe:x`.
abbrev pub image : ImageOptions
image = record {
  docker_image_options = record {
    global = global;
    shared = record { auth_file_path = [] };
    deprecated_tls_verify = some (record { tls_verify = given_false });
    auth_file_path = no_text;
    creds_option = record { present = true; value = lit "joe:x" };
    registry_token = no_text;
    docker_cert_path = [];
    tls_verify = unset;
    no_creds = false;
  };
  shared_blob_dir = [];
  docker_daemon_host = [];
}

abbrev pub image_dest : ImageDestOptions
image_dest = record {
  image_options = image;
  dir_force_compression = false;
  dir_force_decompression = false;
  oci_accept_uncompressed_layers = false;
  compression_format = [];
  compression_level = record { present = false; value = pos 0 };
}

unfoldable pub image_ctx : SystemContext kinds
image_ctx = with_token kinds image (record (image_base_context kinds image) {
  docker_auth_config =
      some (record { username = lit "joe"; password = lit "x"; identity_token = [] });
})

image_accepted : image_system_context kinds image ≡ ok image_ctx
unfolding image_system_context image_ctx get_docker_auth parse_creds cut split_n2 lit
image_accepted = refl

flags_decide_example :
    (image_ctx.docker_insecure_skip_tls_verify ≡ skip_of_first (tls_flags image))
    × (image_ctx.docker_daemon_insecure_skip_tls_verify
        ≡ (if image.tls_verify.present then not image.tls_verify.value else false))
    × (image_ctx.auth_file_path ≡ (
        if image.auth_file_path.present
        then image.auth_file_path.value
        else image.shared.auth_file_path))
    × IsAuth image image_ctx.docker_auth_config
flags_decide_example = flags_decide kinds image {ctx = image_ctx} image_accepted

refused_iff_example :
    ((e : GoError) × (image_system_context kinds image ≡ err e)) ↔ CredsRefused image
refused_iff_example = refused_iff kinds image

parse_creds_iff_example :
    (parse_creds (lit "joe:x") ≡ ok (lit "joe", lit "x"))
    ↔ ((lit "joe" ≢ []) × Lacks b':' (lit "joe") × Spells (lit "joe") (lit "x") (lit "joe:x"))
parse_creds_iff_example = parse_creds_iff (lit "joe") (lit "x") (lit "joe:x")
