-- ===== src/Flags/Image.antt =====
-- The flags that the commands share: `deprecatedTLSVerifyFlags`, `sharedImageFlags`,
-- `dockerImageFlags`, `imageFlags`, `imageDestFlags` and `retryFlags` of cmd/skopeo/utils.go, and the
-- persistent flags of cmd/skopeo/main.go.
use skopeo.Prelude.{true, [], ◌∷◌, ◌++◌, if◌then◌else◌}
use skopeo.Prelude.Texts.{Text, lit, is_blank}
use skopeo.Options.{
  GlobalOptions, SharedImageOptions, DeprecatedTlsVerifyOption, DockerImageOptions, ImageOptions,
  ImageDestOptions, RetryOptions,
}
use skopeo.Flags.{
  Ptr, field, FlagSet, Values, optional_bool_flag, optional_string_flag, optional_int_flag,
  string_var, bool_var, int_var, duration_var,
}

module _ {S : Type 0} where
  abbrev docker_field :
      {B : Type 0}
      → Ptr S ImageOptions
      → (DockerImageOptions → B)
      → (B → DockerImageOptions → DockerImageOptions)
      → Ptr S B
  docker_field p read write =
      field p (λ o. read o.docker_image_options)
        (λ b o. record o { docker_image_options = write b o.docker_image_options })

  abbrev pub image_options_of : Ptr S ImageDestOptions → Ptr S ImageOptions
  image_options_of p = field p (λ o. o.image_options) (λ b o. record o { image_options = b })

  unfoldable pub deprecated_tls_verify_flags : Ptr S DeprecatedTlsVerifyOption → FlagSet S
  unfolding optional_bool_flag
  deprecated_tls_verify_flags p =
      record (optional_bool_flag (field p (λ o. o.tls_verify) (λ b o. record { tls_verify = b }))
        (lit "tls-verify")) { hidden = true }
      ∷ []

  unfoldable pub docker_image_flags : Values → Ptr S ImageOptions → Text → Text → FlagSet S
  unfolding optional_bool_flag
  docker_image_flags V p flag_prefix creds_option_alias =
      let creds = docker_field p (λ o. o.creds_option) (λ b o. record o { creds_option = b }) in
      (if is_blank flag_prefix
        then []
        else optional_string_flag
            (docker_field p (λ o. o.auth_file_path) (λ b o. record o { auth_file_path = b }))
            (flag_prefix ++ lit "authfile") []
          ∷ [])
      ++ optional_string_flag creds (flag_prefix ++ lit "creds") []
        ∷ ((if is_blank creds_option_alias
              then []
              else record (optional_string_flag creds creds_option_alias []) { hidden = true } ∷ [])
            ++ optional_string_flag
                (docker_field p (λ o. o.registry_token) (λ b o. record o { registry_token = b }))
                (flag_prefix ++ lit "registry-token") []
              ∷ string_var V
                  (docker_field p (λ o. o.docker_cert_path)
                    (λ b o. record o { docker_cert_path = b }))
                  (flag_prefix ++ lit "cert-dir") []
              ∷ optional_bool_flag
                  (docker_field p (λ o. o.tls_verify) (λ b o. record o { tls_verify = b }))
                  (flag_prefix ++ lit "tls-verify")
              ∷ bool_var V (docker_field p (λ o. o.no_creds) (λ b o. record o { no_creds = b }))
                  (flag_prefix ++ lit "no-creds") []
              ∷ [])

  unfoldable pub image_flags : Values → Ptr S ImageOptions → Text → Text → FlagSet S
  unfolding docker_image_flags
  image_flags V p flag_prefix creds_option_alias =
      string_var V (field p (λ o. o.shared_blob_dir) (λ b o. record o { shared_blob_dir = b }))
        (flag_prefix ++ lit "shared-blob-dir") []
      ∷ string_var V
          (field p (λ o. o.docker_daemon_host) (λ b o. record o { docker_daemon_host = b }))
          (flag_prefix ++ lit "daemon-host") []
      ∷ docker_image_flags V p flag_prefix creds_option_alias

  unfoldable pub image_dest_flags : Values → Ptr S ImageDestOptions → Text → Text → FlagSet S
  unfolding image_flags
  image_dest_flags V p flag_prefix creds_option_alias =
      image_flags V (image_options_of p) flag_prefix creds_option_alias
      ++ bool_var V
          (field p (λ o. o.dir_force_compression) (λ b o. record o { dir_force_compression = b }))
          (flag_prefix ++ lit "compress") []
        ∷ bool_var V
            (field p (λ o. o.dir_force_decompression)
              (λ b o. record o { dir_force_decompression = b }))
            (flag_prefix ++ lit "decompress") []
        ∷ bool_var V
            (field p (λ o. o.oci_accept_uncompressed_layers)
              (λ b o. record o { oci_accept_uncompressed_layers = b }))
            (flag_prefix ++ lit "oci-accept-uncompressed-layers") []
        ∷ string_var V
            (field p (λ o. o.compression_format) (λ b o. record o { compression_format = b }))
            (flag_prefix ++ lit "compress-format") []
        ∷ optional_int_flag
            (field p (λ o. o.compression_level) (λ b o. record o { compression_level = b }))
            (flag_prefix ++ lit "compress-level")
        ∷ []

  module _ (V : Values) where
    unfoldable pub shared_image_flags : Ptr S SharedImageOptions → FlagSet S
    shared_image_flags p =
        string_var V (field p (λ o. o.auth_file_path) (λ b o. record { auth_file_path = b }))
          (lit "authfile") []
        ∷ []

    unfoldable pub retry_flags : Ptr S RetryOptions → FlagSet S
    retry_flags p =
        int_var V (field p (λ o. o.max_retry) (λ b o. record { max_retry = b })) (lit "retry-times")
        ∷ []

    -- `rootCommand.PersistentFlags()`, which every command has beside its own.
    unfoldable pub persistent_flags : Ptr S GlobalOptions → FlagSet S
    persistent_flags p =
        bool_var V (field p (λ o. o.debug) (λ b o. record o { debug = b })) (lit "debug") []
        ∷ string_var V (field p (λ o. o.policy_path) (λ b o. record o { policy_path = b }))
            (lit "policy") []
        ∷ bool_var V (field p (λ o. o.insecure_policy) (λ b o. record o { insecure_policy = b }))
            (lit "insecure-policy") []
        ∷ string_var V
            (field p (λ o. o.registries_dir_path) (λ b o. record o { registries_dir_path = b }))
            (lit "registries.d") []
        ∷ string_var V (field p (λ o. o.override_arch) (λ b o. record o { override_arch = b }))
            (lit "override-arch") []
        ∷ string_var V (field p (λ o. o.override_os) (λ b o. record o { override_os = b }))
            (lit "override-os") []
        ∷ string_var V
            (field p (λ o. o.override_variant) (λ b o. record o { override_variant = b }))
            (lit "override-variant") []
        ∷ duration_var V
            (field p (λ o. o.command_timeout) (λ b o. record o { command_timeout = b }))
            (lit "command-timeout")
        ∷ record (string_var V
            (field p (λ o. o.registries_conf_path) (λ b o. record o { registries_conf_path = b }))
            (lit "registries-conf") []) { hidden = true }
        ∷ string_var V (field p (λ o. o.tmp_dir) (λ b o. record o { tmp_dir = b })) (lit "tmpdir")
            []
        ∷ []
