-- ===== src/Options.antt =====
-- The option structures of cmd/skopeo/main.go and cmd/skopeo/utils.go, and the `SystemContext` that
-- they stand for. A structure that several others point to is a field of each: it is not changed
-- once the flags are parsed.
pub mod Creds
pub mod Laws
pub mod Warnings
use skopeo.Prelude.{
  Bool, true, false, not, ◌&&◌, Option, none, some, String, List, [], ◌∷◌, if◌then◌else◌,
}
use skopeo.Prelude.Int.{ℤ, pos, is_positive}
use skopeo.Prelude.Texts.{Text, lit, ◌==◌, is_blank}
use skopeo.Go.{Result, ok, err, errorf, GoError}
use skopeo.Flag.{OptionalBool, OptionalString, OptionalInt}
use skopeo.External.Context.{
  Kinds, SystemContext, Context, background, with_timeout, OptionalTruth, undefined, optional_true,
  optional_false, new_optional_bool, DockerAuthConfig,
}
use Creds.{get_docker_auth}

pub record GlobalOptions : Type 0 where
  pub debug : Bool
  pub tls_verify : OptionalBool
  pub policy_path : Text
  pub insecure_policy : Bool
  pub registries_dir_path : Text
  pub override_arch : Text
  pub override_os : Text
  pub override_variant : Text
  pub command_timeout : ℤ
  pub registries_conf_path : Text
  pub tmp_dir : Text

pub record SharedImageOptions : Type 0 where
  pub auth_file_path : Text

pub record DeprecatedTlsVerifyOption : Type 0 where
  pub tls_verify : OptionalBool

pub record DockerImageOptions : Type 0 where
  pub global : GlobalOptions
  pub shared : SharedImageOptions
  pub deprecated_tls_verify : Option DeprecatedTlsVerifyOption
  pub auth_file_path : OptionalString
  pub creds_option : OptionalString
  pub registry_token : OptionalString
  pub docker_cert_path : Text
  pub tls_verify : OptionalBool
  pub no_creds : Bool

pub record ImageOptions : Type 0 where
  pub docker_image_options : DockerImageOptions
  pub open docker_image_options use *
  pub shared_blob_dir : Text
  pub docker_daemon_host : Text

pub record ImageDestOptions : Type 0 where
  pub image_options : ImageOptions
  pub dir_force_compression : Bool
  pub dir_force_decompression : Bool
  pub oci_accept_uncompressed_layers : Bool
  pub compression_format : Text
  pub compression_level : OptionalInt

-- `retry.RetryOptions`, of which the program sets one field.
pub record RetryOptions : Type 0 where
  pub max_retry : ℤ

-- version/version.go
unfoldable pub version : Text
version = lit "1.4.1-dev"

unfoldable pub default_user_agent : Text
default_user_agent = lit "skopeo/1.4.1-dev"

unfoldable pub command_timeout_context : GlobalOptions → Context
command_timeout_context opts =
    if is_positive opts.command_timeout
    then with_timeout background opts.command_timeout
    else background

module _ (K : Kinds) where
  -- `newSystemContext` of `*globalOptions`
  unfoldable pub global_system_context : GlobalOptions → SystemContext K
  global_system_context opts = record {
    registries_dir_path = opts.registries_dir_path;
    system_registries_conf_path = opts.registries_conf_path;
    auth_file_path = [];
    architecture_choice = opts.override_arch;
    os_choice = opts.override_os;
    variant_choice = opts.override_variant;
    docker_archive_additional_tags = [];
    big_files_temporary_dir = opts.tmp_dir;
    oci_shared_blob_dir_path = [];
    oci_accept_uncompressed_layers = false;
    docker_cert_path = [];
    docker_insecure_skip_tls_verify =
        if opts.tls_verify.present
        then new_optional_bool (not opts.tls_verify.value)
        else undefined;
    docker_auth_config = none;
    docker_bearer_registry_token = [];
    docker_registry_user_agent = default_user_agent;
    docker_daemon_cert_path = [];
    docker_daemon_host = [];
    docker_daemon_insecure_skip_tls_verify = false;
    dir_force_compress = false;
    dir_force_decompress = false;
    compression_format = none;
    compression_level = none;
  }

  abbrev with_deprecated : Option DeprecatedTlsVerifyOption → SystemContext K → SystemContext K
  with_deprecated none ctx = ctx
  with_deprecated (some deprecated) ctx =
      if deprecated.tls_verify.present
      then record ctx {
        docker_insecure_skip_tls_verify = new_optional_bool (not deprecated.tls_verify.value);
      }
      else ctx

  -- The part of `newSystemContext` of `*imageOptions` that cannot fail, up to the credentials.
  unfoldable pub image_base_context : ImageOptions → SystemContext K
  unfolding global_system_context
  image_base_context opts =
      let ctx = record (global_system_context opts.global) {
        docker_cert_path = opts.docker_cert_path;
        oci_shared_blob_dir_path = opts.shared_blob_dir;
        auth_file_path = opts.shared.auth_file_path;
        docker_daemon_host = opts.docker_daemon_host;
        docker_daemon_cert_path = opts.docker_cert_path;
      } in
      let ctx =
        if opts.auth_file_path.present
        then record ctx { auth_file_path = opts.auth_file_path.value }
        else ctx in
      let ctx = with_deprecated opts.deprecated_tls_verify ctx in
      if opts.tls_verify.present
      then record ctx {
        docker_daemon_insecure_skip_tls_verify = not opts.tls_verify.value;
        docker_insecure_skip_tls_verify = new_optional_bool (not opts.tls_verify.value);
      }
      else ctx

  -- The rest of it: the registry token, and `--no-creds`.
  unfoldable pub with_token : ImageOptions → SystemContext K → SystemContext K
  with_token opts ctx =
      let ctx =
        if opts.registry_token.present
        then record ctx { docker_bearer_registry_token = opts.registry_token.value }
        else ctx in
      if opts.no_creds
      then record ctx {
        docker_auth_config = some (record { username = []; password = []; identity_token = [] });
      }
      else ctx

  abbrev with_auth :
      ImageOptions → SystemContext K → Result DockerAuthConfig → Result (SystemContext K)
  with_auth opts ctx (err e) = err e
  with_auth opts ctx (ok auth) =
      ok (with_token opts (record ctx { docker_auth_config = some auth }))

  -- `newSystemContext` of `*imageOptions`
  unfoldable pub image_system_context : ImageOptions → Result (SystemContext K)
  unfolding image_base_context with_token
  image_system_context opts =
      let ctx = image_base_context opts in
      if opts.creds_option.present && opts.no_creds
      then err (errorf "creds and no-creds cannot be specified at the same time" [])
      else if opts.creds_option.present
      then with_auth opts ctx (get_docker_auth opts.creds_option.value)
      else ok (with_token opts ctx)

  abbrev with_level : ImageDestOptions → SystemContext K → SystemContext K
  with_level opts ctx =
      if opts.compression_level.present
      then record ctx { compression_level = some opts.compression_level.value }
      else ctx

  abbrev with_algorithm :
      ImageDestOptions → SystemContext K → Result (K.Algorithm) → Result (SystemContext K)
  with_algorithm opts ctx (err e) = err e
  with_algorithm opts ctx (ok cf) =
      ok (with_level opts (record ctx { compression_format = some cf }))

  abbrev with_dest :
      (Text → Result (K.Algorithm))
      → ImageDestOptions
      → Result (SystemContext K)
      → Result (SystemContext K)
  with_dest algorithm_by_name opts (err e) = err e
  with_dest algorithm_by_name opts (ok ctx) =
      let ctx = record ctx {
        dir_force_compress = opts.dir_force_compression;
        dir_force_decompress = opts.dir_force_decompression;
        oci_accept_uncompressed_layers = opts.oci_accept_uncompressed_layers;
      } in
      if is_blank opts.compression_format
      then ok (with_level opts ctx)
      else with_algorithm opts ctx (algorithm_by_name opts.compression_format)

  -- `newSystemContext` of `*imageDestOptions`. The library's `compression.AlgorithmByName` is the
  -- argument.
  unfoldable pub dest_system_context :
      (Text → Result (K.Algorithm)) → ImageDestOptions → Result (SystemContext K)
  dest_system_context algorithm_by_name opts =
      with_dest algorithm_by_name opts (image_system_context opts.image_options)

-- imgspecv1.MediaTypeImageManifest, manifest.DockerV2Schema1SignedMediaType and
-- manifest.DockerV2Schema2MediaType of the libraries.
pub record MediaTypes : Type 0 where
  pub image_manifest : Text
  pub docker_v2_schema1_signed : Text
  pub docker_v2_schema2 : Text

unfoldable pub parse_manifest_format : MediaTypes → Text → Result Text
parse_manifest_format types manifest_format =
    if manifest_format == lit "oci"
    then ok types.image_manifest
    else if manifest_format == lit "v2s1"
    then ok types.docker_v2_schema1_signed
    else if manifest_format == lit "v2s2"
    then ok types.docker_v2_schema2
    else err (
        errorf "unknown format %q. Choose one of the supported formats: 'oci', 'v2s1', or 'v2s2'"
          (manifest_format ∷ []))
