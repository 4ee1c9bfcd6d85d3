-- ===== src/Copy.antt =====
-- cmd/skopeo/copy.go
pub mod Tags
pub mod Laws
pub mod Digest
pub mod Success
use skopeo.Prelude.{
  Bool, true, false, ◌&&◌, not, Option, none, some, List, [], ◌∷◌, ◌++◌, if◌then◌else◌,
}
use skopeo.Prelude.Int.{ℤ}
use skopeo.Prelude.Lists.{is_empty}
use skopeo.Prelude.Texts.{Text, is_blank}
use skopeo.Go.{
  GoError, Result, ok, err, errorf, errorf_of, should_display_usage, Exec, continue, ◌>>=◌, ◌>>◌,
  pure, fail, lift, or_wrap, reject_if,
}
use skopeo.Flag.{OptionalString}
use skopeo.External.Context.{Kinds, SystemContext, Context}
use skopeo.External.Contents.{Crypto, Digests}
use skopeo.External.Libraries.{
  CopyOptions, command_output, copy_system_image, copy_all_images, References, Host, Remote,
}
use skopeo.External.Process.{Process}
use skopeo.Options.{
  GlobalOptions, DeprecatedTlsVerifyOption, ImageOptions, ImageDestOptions, RetryOptions,
  command_timeout_context, image_system_context, dest_system_context, parse_manifest_format,
}
use skopeo.Options.Warnings.{two_sides, warn_if_used}
use skopeo.Policy.{get_policy_context, destroying}
use skopeo.Unshare.{reexec_if_necessary_for_images}

-- `copyOptions`, as distinct from the library's `copy.Options`.
pub record CopyCmdOptions : Type 0 where
  pub global : GlobalOptions
  pub deprecated_tls_verify : DeprecatedTlsVerifyOption
  pub src_image : ImageOptions
  pub dest_image : ImageDestOptions
  pub retry_opts : RetryOptions
  pub additional_tags : List Text
  pub remove_signatures : Bool
  pub sign_by_fingerprint : Text
  pub digest_file : Text
  pub format : OptionalString
  pub quiet : Bool
  pub all : Bool
  pub encrypt_layer : List ℤ
  pub encryption_keys : List Text
  pub decryption_keys : List Text

-- The variables `encLayers`, `encConfig` and `decConfig`.
pub record CryptoSettings (K : Kinds) : Type 0 where
  pub enc_layers : Option (List ℤ)
  pub enc_config : Option (K.EncryptConfig)
  pub dec_config : Option (K.DecryptConfig)

module _ (K : Kinds) (R : References K) where
  tagged_reference : Text → K.Named → Result (K.Named)
  tagged_reference image ref = elim (R.tag? ref) [
    | some tag ↦ ok ref
    | none ↦ err (errorf "additional-tag '%s' must be a tagged reference" (image ∷ []))
  ]

  unfoldable pub parse_additional_tag : Text → Result (K.Named)
  unfolding tagged_reference
  parse_additional_tag image = elim (R.parse_normalized_named image) [
    | err e ↦ err (errorf_of "error parsing additional-tag '%s': %v" (image ∷ []) e)
    | ok ref ↦ tagged_reference image ref
  ]

  -- The loop over the additional tags.
  unfoldable pub add_tags : List Text → SystemContext K → Exec (K.World) (SystemContext K)
  add_tags [] ctx = pure ctx
  add_tags (image ∷ images) ctx = do
    named ← lift (parse_additional_tag image)
    add_tags images (record ctx {
      docker_archive_additional_tags = ctx.docker_archive_additional_tags ++ named ∷ [];
    })

module _ (K : Kinds) (C : Crypto K) where
  encrypt_settings : CopyCmdOptions → Exec (K.World) (Option (List ℤ) × Option (K.EncryptConfig))
  encrypt_settings opts = if is_empty opts.encryption_keys then pure (none, none) else (do
    ecc ←
        or_wrap (errorf_of "Invalid encryption keys: %v" [])
          (C.create_crypto_config opts.encryption_keys [])
    pure (some opts.encrypt_layer, C.encrypt_config (C.combine_crypto_configs (ecc ∷ []))))

  decrypt_settings : CopyCmdOptions → Exec (K.World) (Option (K.DecryptConfig))
  decrypt_settings opts = if is_empty opts.decryption_keys then pure none else (do
    dcc ←
        or_wrap (errorf_of "Invalid decryption keys: %v" [])
          (C.create_crypto_config [] opts.decryption_keys)
    pure (C.decrypt_config (C.combine_crypto_configs (dcc ∷ []))))

  unfoldable pub crypto_settings : CopyCmdOptions → Exec (K.World) (CryptoSettings K)
  unfolding encrypt_settings decrypt_settings
  crypto_settings opts = do
    reject_if (not (is_empty opts.encryption_keys) && not (is_empty opts.decryption_keys))
        (errorf "--encryption-key and --decryption-key cannot be specified together" [])
    reject_if (not (is_empty opts.encrypt_layer) && is_empty opts.encryption_keys)
        (errorf "--encrypt-layer can only be used with --encryption-key" [])
    enc ← encrypt_settings opts
    dec ← decrypt_settings opts
    pure (record { enc_layers = enc.0; enc_config = enc.1; dec_config = dec })

module _ (K : Kinds) (R : References K) (H : Host K) (N : Remote K) (D : Digests K) where
  unfoldable pub write_digest : CopyCmdOptions → Text → Exec (K.World) (Unit {0})
  write_digest opts manifest_bytes = if is_blank opts.digest_file then pure tt else (do
    digest ← lift (D.digest manifest_bytes)
    or_wrap (errorf_of "Failed to write digest to file %q: %w" (opts.digest_file ∷ []))
        (H.write_file opts.digest_file (D.string digest)))

  -- What is retried.
  unfoldable pub copy_once :
      Context
      → K.PolicyContext
      → CopyCmdOptions
      → K.ImageReference
      → K.ImageReference
      → CopyOptions K
      → Exec (K.World) (Unit {0})
  copy_once ctx policy opts dest_ref src_ref options = do
    manifest_bytes ← N.copy_image ctx policy dest_ref src_ref options
    write_digest opts manifest_bytes

  abbrev pub copy_options :
      CopyCmdOptions → SystemContext K → SystemContext K → Text → CryptoSettings K → CopyOptions K
  copy_options opts source_ctx destination_ctx manifest_type crypto = record {
    remove_signatures = opts.remove_signatures;
    sign_by = opts.sign_by_fingerprint;
    report_writer = if opts.quiet then none else some command_output;
    source_ctx = source_ctx;
    destination_ctx = destination_ctx;
    image_list_selection = if opts.all then copy_all_images else copy_system_image;
    optimize_destination_image_already_exists = false;
    force_manifest_mime_type = manifest_type;
    oci_decrypt_config = crypto.dec_config;
    oci_encrypt_layers = crypto.enc_layers;
    oci_encrypt_config = crypto.enc_config;
  }

  abbrev pub manifest_type_of : OptionalString → Result Text
  manifest_type_of format =
      if format.present then parse_manifest_format N.media_types format.value else ok []

  module _ (P : Process K) (C : Crypto K) where
    -- `run` from the policy context on.
    unfoldable pub copy_with_policy :
        CopyCmdOptions → Text → Text → K.PolicyContext → Exec (K.World) (Unit {0})
    copy_with_policy opts src dest policy = do
      src_ref ←
          or_wrap (errorf_of "Invalid source name %s: %v" (src ∷ []))
            (lift (R.parse_image_name src))
      dest_ref ←
          or_wrap (errorf_of "Invalid destination name %s: %v" (dest ∷ []))
            (lift (R.parse_image_name dest))
      source_ctx ← lift (image_system_context K opts.src_image)
      base_ctx ← lift (dest_system_context K N.algorithm_by_name opts.dest_image)
      manifest_type ← lift (manifest_type_of opts.format)
      destination_ctx ← add_tags K R opts.additional_tags base_ctx
      let ctx = command_timeout_context opts.global
      crypto ← crypto_settings K C opts
      N.retry_if_necessary (Unit {0}) ctx opts.retry_opts (
          copy_once ctx policy opts dest_ref src_ref
            (copy_options opts source_ctx destination_ctx manifest_type crypto))

    unfoldable pub run : CopyCmdOptions → List Text → Exec (K.World) (Unit {0})
    run opts (src ∷ dest ∷ []) = do
      warn_if_used K H opts.deprecated_tls_verify two_sides
      reexec_if_necessary_for_images K P R (src ∷ dest ∷ [])
      policy ←
          or_wrap (errorf_of "Error loading trust policy: %v" [])
            (get_policy_context K N opts.global)
      destroying K N policy (copy_with_policy opts src dest policy)
    run opts _ = fail (should_display_usage (errorf "Exactly two arguments expected" []))
