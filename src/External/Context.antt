-- ===== src/External/Context.antt =====
-- The types of the libraries, and `types.SystemContext` with the fields that the program sets.
use skopeo.Prelude.{Bool, true, false, Option, List}
use skopeo.Prelude.Int.{ℤ}
use skopeo.Prelude.Texts.{Text}

pub record Kinds : Type 1 where
  -- All that is outside the program: registries, files, streams, the process.
  pub World : Type 0
  -- reference.Named
  pub Named : Type 0
  -- digest.Digest
  pub Digest : Type 0
  -- types.ImageReference
  pub ImageReference : Type 0
  -- compression.Algorithm
  pub Algorithm : Type 0
  -- *signature.Policy
  pub Policy : Type 0
  -- *signature.PolicyContext
  pub PolicyContext : Type 0
  -- ocicrypt's config.CryptoConfig, *config.EncryptConfig and *config.DecryptConfig
  pub CryptoConfig : Type 0
  pub EncryptConfig : Type 0
  pub DecryptConfig : Type 0
  -- types.ImageSource, types.ImageCloser, types.ImageDestination and io.ReadCloser
  pub ImageSource : Type 0
  pub Image : Type 0
  pub ImageDestination : Type 0
  pub Reader : Type 0
  -- types.BlobInfoCache
  pub BlobInfoCache : Type 0
  -- v1.Image, an image's configuration
  pub OciConfig : Type 0
  -- signature.SigningMechanism
  pub Mechanism : Type 0

-- types.OptionalBool
pub data OptionalTruth : Type 0 where
  undefined optional_true optional_false : OptionalTruth

-- types.NewOptionalBool
abbrev pub new_optional_bool : Bool → OptionalTruth
new_optional_bool true = optional_true
new_optional_bool false = optional_false

-- types.DockerAuthConfig
pub record DockerAuthConfig : Type 0 where
  pub username : Text
  pub password : Text
  pub identity_token : Text

-- context.Context: the background context, or one with a timeout in nanoseconds.
pub data Context : Type 0 where
  background : Context
  with_timeout : Context → ℤ → Context

pub record SystemContext (K : Kinds) : Type 0 where
  pub registries_dir_path : Text
  pub system_registries_conf_path : Text
  pub auth_file_path : Text
  pub architecture_choice : Text
  pub os_choice : Text
  pub variant_choice : Text
  pub docker_archive_additional_tags : List (K.Named)
  pub big_files_temporary_dir : Text
  pub oci_shared_blob_dir_path : Text
  pub oci_accept_uncompressed_layers : Bool
  pub docker_cert_path : Text
  pub docker_insecure_skip_tls_verify : OptionalTruth
  pub docker_auth_config : Option DockerAuthConfig
  pub docker_bearer_registry_token : Text
  pub docker_registry_user_agent : Text
  pub docker_daemon_cert_path : Text
  pub docker_daemon_host : Text
  pub docker_daemon_insecure_skip_tls_verify : Bool
  pub dir_force_compress : Bool
  pub dir_force_decompress : Bool
  pub compression_format : Option (K.Algorithm)
  pub compression_level : Option ℤ
