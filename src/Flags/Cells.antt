-- ===== src/Flags/Cells.antt =====
-- The structures that the flags of a command write to, before `run` reads them.
use skopeo.Prelude.{Bool, true, false, Option, none, some, []}
use skopeo.Prelude.Int.{pos}
use skopeo.Flag.{OptionalBool, OptionalString}
use skopeo.Options.{
  GlobalOptions, SharedImageOptions, DeprecatedTlsVerifyOption, ImageOptions, ImageDestOptions,
  RetryOptions,
}
use skopeo.Flags.{Ptr, field}

-- The structures of a command: those that its options point to, and the options. A pointer field of
-- the options holds nothing of its own; `load_image` reads it.
pub record Cells (O : Type 0) : Type 0 where
  pub global : GlobalOptions
  pub shared : SharedImageOptions
  pub deprecated : DeprecatedTlsVerifyOption
  pub options : O

abbrev deprecated_of : Bool → DeprecatedTlsVerifyOption → Option DeprecatedTlsVerifyOption
deprecated_of true d = some d
deprecated_of false d = none

module _ {O : Type 0} where
  -- The options of an image, with what its pointers point to. Not every command has the deprecated
  -- option.
  abbrev pub load_image : Bool → Cells O → ImageOptions → ImageOptions
  load_image has_deprecated cells image = record image {
    docker_image_options = record image.docker_image_options {
      global = cells.global;
      shared = cells.shared;
      deprecated_tls_verify = deprecated_of has_deprecated cells.deprecated;
    };
  }

  abbrev pub global_of : Ptr (Cells O) GlobalOptions
  global_of = record { get = λ c. c.global; put = λ b c. record c { global = b } }

  abbrev pub shared_of : Ptr (Cells O) SharedImageOptions
  shared_of = record { get = λ c. c.shared; put = λ b c. record c { shared = b } }

  abbrev pub deprecated_ptr : Ptr (Cells O) DeprecatedTlsVerifyOption
  deprecated_ptr = record { get = λ c. c.deprecated; put = λ b c. record c { deprecated = b } }

  abbrev pub option : {B : Type 0} → (O → B) → (B → O → O) → Ptr (Cells O) B
  option read write =
      field (record { get = λ c. c.options; put = λ b c. record c { options = b } }) read write

abbrev pub unset_bool : OptionalBool
unset_bool = record { present = false; value = false }

abbrev pub unset_string : OptionalString
unset_string = record { present = false; value = [] }

-- `flags` of `dockerImageFlags`, as it is when the flags are registered.
unfoldable pub new_image_options :
    GlobalOptions → SharedImageOptions → Option DeprecatedTlsVerifyOption → ImageOptions
new_image_options global shared deprecated = record {
  docker_image_options = record {
    global = global;
    shared = shared;
    deprecated_tls_verify = deprecated;
    auth_file_path = unset_string;
    creds_option = unset_string;
    registry_token = unset_string;
    docker_cert_path = [];
    tls_verify = unset_bool;
    no_creds = false;
  };
  shared_blob_dir = [];
  docker_daemon_host = [];
}

-- `opts` of `imageDestFlags`
unfoldable pub new_image_dest_options : ImageOptions → ImageDestOptions
new_image_dest_options image = record {
  image_options = image;
  dir_force_compression = false;
  dir_force_decompression = false;
  oci_accept_uncompressed_layers = false;
  compression_format = [];
  compression_level = record { present = false; value = pos 0 };
}

-- `opts` of `retryFlags`
abbrev pub no_retry : RetryOptions
no_retry = record { max_retry = pos 0 }

abbrev pub no_deprecated : DeprecatedTlsVerifyOption
no_deprecated = record { tls_verify = unset_bool }
