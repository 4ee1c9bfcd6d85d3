-- ===== src/Flags/Commands.antt =====
-- The flags of each command.
use skopeo.Prelude.{[], ◌∷◌, ◌++◌}
use skopeo.Prelude.Texts.{lit}
use skopeo.Copy.{CopyCmdOptions}
use skopeo.Inspect.{InspectOptions}
use skopeo.Delete.{DeleteOptions}
use skopeo.Layers.{LayersOptions}
use skopeo.ListTags.{TagsOptions}
use skopeo.Sync.Run.{SyncOptions}
use skopeo.Signing.{StandaloneSignOptions}
use skopeo.Flags.{
  FlagSet, Values, optional_string_flag, string_var, bool_var, string_slice_var, int_slice_var,
}
use skopeo.Flags.Cells.{Cells, global_of, shared_of, deprecated_ptr, option}
use skopeo.Flags.Image.{
  image_options_of, deprecated_tls_verify_flags, shared_image_flags, docker_image_flags,
  image_flags, image_dest_flags, retry_flags, persistent_flags,
}

module _ (V : Values) where
  -- `copyCmd`, with the flags that the command inherits.
  unfoldable pub copy_flags : FlagSet (Cells CopyCmdOptions)
  unfolding shared_image_flags deprecated_tls_verify_flags image_flags image_dest_flags retry_flags
      persistent_flags
  copy_flags =
      shared_image_flags V shared_of
      ++ deprecated_tls_verify_flags deprecated_ptr
      ++ image_flags V (option (λ o. o.src_image) (λ b o. record o { src_image = b })) (lit "src-")
          (lit "screds")
      ++ image_dest_flags V (option (λ o. o.dest_image) (λ b o. record o { dest_image = b }))
          (lit "dest-") (lit "dcreds")
      ++ retry_flags V (option (λ o. o.retry_opts) (λ b o. record o { retry_opts = b }))
      ++ string_slice_var V
          (option (λ o. o.additional_tags) (λ b o. record o { additional_tags = b }))
          (lit "additional-tag")
        ∷ bool_var V (option (λ o. o.quiet) (λ b o. record o { quiet = b })) (lit "quiet") (lit "q")
        ∷ bool_var V (option (λ o. o.all) (λ b o. record o { all = b })) (lit "all") (lit "a")
        ∷ bool_var V (option (λ o. o.remove_signatures) (λ b o. record o { remove_signatures = b }))
            (lit "remove-signatures") []
        ∷ string_var V
            (option (λ o. o.sign_by_fingerprint) (λ b o. record o { sign_by_fingerprint = b }))
            (lit "sign-by") []
        ∷ string_var V (option (λ o. o.digest_file) (λ b o. record o { digest_file = b }))
            (lit "digestfile") []
        ∷ optional_string_flag (option (λ o. o.format) (λ b o. record o { format = b }))
            (lit "format") (lit "f")
        ∷ string_slice_var V
            (option (λ o. o.encryption_keys) (λ b o. record o { encryption_keys = b }))
            (lit "encryption-key")
        ∷ int_slice_var V (option (λ o. o.encrypt_layer) (λ b o. record o { encrypt_layer = b }))
            (lit "encrypt-layer")
        ∷ string_slice_var V
            (option (λ o. o.decryption_keys) (λ b o. record o { decryption_keys = b }))
            (lit "decryption-key")
        ∷ persistent_flags V global_of

  -- `syncCmd`. Only the image options of the destination have flags.
  unfoldable pub sync_flags : FlagSet (Cells SyncOptions)
  unfolding shared_image_flags deprecated_tls_verify_flags docker_image_flags retry_flags
      persistent_flags
  sync_flags =
      bool_var V (option (λ o. o.remove_signatures) (λ b o. record o { remove_signatures = b }))
        (lit "remove-signatures") []
      ∷ string_var V
          (option (λ o. o.sign_by_fingerprint) (λ b o. record o { sign_by_fingerprint = b }))
          (lit "sign-by") []
      ∷ optional_string_flag (option (λ o. o.format) (λ b o. record o { format = b }))
          (lit "format") (lit "f")
      ∷ string_var V (option (λ o. o.source) (λ b o. record o { source = b })) (lit "src") (lit "s")
      ∷ string_var V (option (λ o. o.destination) (λ b o. record o { destination = b }))
          (lit "dest") (lit "d")
      ∷ bool_var V (option (λ o. o.scoped) (λ b o. record o { scoped = b })) (lit "scoped") []
      ∷ bool_var V (option (λ o. o.all) (λ b o. record o { all = b })) (lit "all") (lit "a")
      ∷ (shared_image_flags V shared_of
          ++ deprecated_tls_verify_flags deprecated_ptr
          ++ docker_image_flags V (option (λ o. o.src_image) (λ b o. record o { src_image = b }))
              (lit "src-") (lit "screds")
          ++ docker_image_flags V
              (image_options_of (option (λ o. o.dest_image) (λ b o. record o { dest_image = b })))
              (lit "dest-") (lit "dcreds")
          ++ retry_flags V (option (λ o. o.retry_opts) (λ b o. record o { retry_opts = b }))
          ++ persistent_flags V global_of)

  -- `inspectCmd`
  unfoldable pub inspect_flags : FlagSet (Cells InspectOptions)
  unfolding shared_image_flags image_flags retry_flags persistent_flags
  inspect_flags =
      bool_var V (option (λ o. o.raw) (λ b o. record o { raw = b })) (lit "raw") []
      ∷ bool_var V (option (λ o. o.config) (λ b o. record o { config = b })) (lit "config") []
      ∷ string_var V (option (λ o. o.format) (λ b o. record o { format = b })) (lit "format")
          (lit "f")
      ∷ (shared_image_flags V shared_of
          ++ image_flags V (option (λ o. o.image) (λ b o. record o { image = b })) [] []
          ++ retry_flags V (option (λ o. o.retry_opts) (λ b o. record o { retry_opts = b }))
          ++ persistent_flags V global_of)

  -- `deleteCmd`
  unfoldable pub delete_flags : FlagSet (Cells DeleteOptions)
  unfolding shared_image_flags image_flags retry_flags persistent_flags
  delete_flags =
      shared_image_flags V shared_of
      ++ image_flags V (option (λ o. o.image) (λ b o. record o { image = b })) [] []
      ++ retry_flags V (option (λ o. o.retry_opts) (λ b o. record o { retry_opts = b }))
      ++ persistent_flags V global_of

  -- `layersCmd`
  unfoldable pub layers_flags : FlagSet (Cells LayersOptions)
  unfolding shared_image_flags image_flags retry_flags persistent_flags
  layers_flags =
      shared_image_flags V shared_of
      ++ image_flags V (option (λ o. o.image) (λ b o. record o { image = b })) [] []
      ++ retry_flags V (option (λ o. o.retry_opts) (λ b o. record o { retry_opts = b }))
      ++ persistent_flags V global_of

  -- `tagsCmd`
  unfoldable pub tags_flags : FlagSet (Cells TagsOptions)
  unfolding shared_image_flags docker_image_flags retry_flags persistent_flags
  tags_flags =
      shared_image_flags V shared_of
      ++ docker_image_flags V (option (λ o. o.image) (λ b o. record o { image = b })) [] []
      ++ retry_flags V (option (λ o. o.retry_opts) (λ b o. record o { retry_opts = b }))
      ++ persistent_flags V global_of

  -- `standaloneSignCmd`
  unfoldable pub standalone_sign_flags : FlagSet (Cells StandaloneSignOptions)
  unfolding persistent_flags
  standalone_sign_flags =
      string_var V (option (λ o. o.output) (λ b o. record { output = b })) (lit "output") (lit "o")
      ∷ persistent_flags V global_of
