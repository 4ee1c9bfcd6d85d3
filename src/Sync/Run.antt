-- ===== src/Sync/Run.antt =====
-- `destinationReference` and `run` of `*syncOptions`: the options' checks, the source's images, and
-- the loop that copies them.
pub mod Copies
pub mod Checks
pub mod Suffix
pub mod Success
use skopeo.Prelude.{
  ℕ, ◌+◌, Bool, true, false, not, ◌&&◌, ◌||◌, Option, none, some, List, [], ◌∷◌, ◌++◌,
  if◌then◌else◌,
}
use skopeo.Prelude.Texts.{Text, lit, ◌==◌, is_blank, trim_prefix}
use skopeo.Go.{
  Result, ok, err, GoError, errorf, wrapped, should_display_usage, nil_dereference, is_not_exist,
  Exec, continue, ◌>>=◌, ◌>>◌, lift, pure, fail, or_wrap, reject_if,
}
use skopeo.Go.Path.{base, join}
use skopeo.External.Context.{Kinds, SystemContext, Context}
use skopeo.External.Libraries.{
  References, Host, Remote, Transport, docker, directory, other, CopyOptions, copy_system_image,
  copy_all_images, os_stdout,
}
use skopeo.Flag.{OptionalString}
use skopeo.Options.{
  GlobalOptions, ImageOptions, ImageDestOptions, DeprecatedTlsVerifyOption, RetryOptions,
  image_system_context, dest_system_context, parse_manifest_format, command_timeout_context,
}
use skopeo.Options.Warnings.{two_sides, warn_if_used}
use skopeo.Policy.{get_policy_context, destroying}
use skopeo.Sync.Config.{RepoDescriptor, RawRegistry}
use skopeo.Sync.Registry.{images_to_copy}

pub record SyncOptions : Type 0 where
  pub global : GlobalOptions
  pub deprecated_tls_verify : DeprecatedTlsVerifyOption
  pub src_image : ImageOptions
  pub dest_image : ImageDestOptions
  pub retry_opts : RetryOptions
  pub remove_signatures : Bool
  pub sign_by_fingerprint : Text
  pub format : OptionalString
  pub source : Text
  pub destination : Text
  pub scoped : Bool
  pub all : Bool

-- The closure `contains` of `run`.
unfoldable pub contains_text : Text → List Text → Bool
contains_text val [] = false
contains_text val (l ∷ list) = l == val || contains_text val list

-- The checks of a source and a destination transport, over the names of the two known ones.
check_names : Text → Text → Text → Text → Option GoError
unfolding contains_text
check_names docker_name dir_name source destination =
    if is_blank source
    then some (errorf "A source transport must be specified" [])
    else if not (contains_text source (docker_name ∷ dir_name ∷ lit "yaml" ∷ []))
    then some (errorf "%q is not a valid source transport" (source ∷ []))
    else if is_blank destination
    then some (errorf "A destination transport must be specified" [])
    else if not (contains_text destination (docker_name ∷ dir_name ∷ []))
    then some (errorf "%q is not a valid destination transport" (destination ∷ []))
    else if source == destination && source == dir_name
    then some (errorf "sync from 'dir' to 'dir' not implemented, consider using rsync instead" [])
    else none

module _ (K : Kinds) (R : References K) where
  -- The switch on the transport of an image, before the scope is cut off.
  abbrev pub full_suffix : Text → K.ImageReference → Transport → Result Text
  full_suffix dir_base_path ref docker = elim (R.docker_reference ref) [
    | none ↦ err nil_dereference
    | some named ↦ ok (R.string named)
  ]
  full_suffix dir_base_path ref directory =
      let suffix = trim_prefix (R.string_within_transport ref) dir_base_path in
      ok (if is_blank suffix then base dir_base_path else suffix)
  full_suffix dir_base_path ref (other name) = ok []

  abbrev scope_suffix : Bool → Result Text → Result Text
  scope_suffix scoped (err e) = err e
  scope_suffix scoped (ok suffix) = ok (if scoped then suffix else base suffix)

  -- What the destination of an image is called below the destination that the user named.
  unfoldable pub dest_suffix : Bool → Text → K.ImageReference → Result Text
  dest_suffix scoped dir_base_path ref =
      scope_suffix scoped (full_suffix dir_base_path ref (R.transport ref))

  -- The checks of `--src` and `--dest`.
  unfoldable pub check_transports : SyncOptions → Option GoError
  unfolding check_names
  check_transports opts =
      check_names (R.transport_name docker) (R.transport_name directory) opts.source
        opts.destination

  module _ (H : Host K) where
    -- What `os.Stat` says of a destination directory.
    abbrev after_stat : Text → Result (Unit {0}) → Exec (K.World) (Unit {0})
    after_stat destination (ok _) =
        fail (errorf "Refusing to overwrite destination directory %q" (destination ∷ []))
    after_stat destination (err e) =
        if not (is_not_exist e)
        then fail (wrapped e "Destination directory could not be used" [])
        else or_wrap (λ e'. wrapped e' "Error creating directory for image %s" (destination ∷ []))
            (H.mkdir_all destination)

    unfoldable pub make_directory : Text → Exec (K.World) (Unit {0})
    make_directory destination w = let (r, w') = H.stat destination w in after_stat destination r w'

    abbrev parse_destination : Transport → Text → Exec (K.World) (K.ImageReference)
    parse_destination transport destination =
        or_wrap
          (λ e.
            wrapped e "Cannot obtain a valid image reference for transport %q and reference %q"
              (R.transport_name transport ∷ destination ∷ []))
          (lift (R.parse_reference transport destination))

    unfoldable pub destination_reference : Text → Text → Exec (K.World) (K.ImageReference)
    destination_reference destination transport =
        if transport == R.transport_name docker
        then parse_destination docker (b'/' ∷ b'/' ∷ destination)
        else if transport == R.transport_name directory
        then (do make_directory destination; parse_destination directory destination)
        else fail (errorf "%q is not a valid destination transport" (transport ∷ []))

    module _ (N : Remote K) where
      -- The copy of one image, with its retries.
      unfoldable pub copy_ref :
          Context
          → K.PolicyContext
          → SyncOptions
          → Text
          → Text
          → CopyOptions K
          → K.ImageReference
          → Exec (K.World) (Unit {0})
      copy_ref ctx policy opts destination dir_base_path options ref = do
        suffix ← lift (dest_suffix opts.scoped dir_base_path ref)
        dest_ref ← destination_reference (join destination suffix) opts.destination
        or_wrap (λ e. wrapped e "Error copying ref %q" (R.image_name ref ∷ []))
            (N.retry_if_necessary Text ctx opts.retry_opts
              (N.copy_image ctx policy dest_ref ref options))
        pure tt

      -- The inner loop, with the number of images so far.
      unfoldable pub copy_refs :
          Context
          → K.PolicyContext
          → SyncOptions
          → Text
          → Text
          → CopyOptions K
          → ℕ
          → List (K.ImageReference)
          → Exec (K.World) ℕ
      copy_refs ctx policy opts destination dir_base_path options number [] = pure number
      copy_refs ctx policy opts destination dir_base_path options number (ref ∷ refs) = do
        copy_ref ctx policy opts destination dir_base_path options ref
        copy_refs ctx policy opts destination dir_base_path options (number + 1) refs

      -- The outer loop. `options.SourceCtx` is set anew for each repository.
      unfoldable pub copy_repos :
          Context
          → K.PolicyContext
          → SyncOptions
          → Text
          → CopyOptions K
          → ℕ
          → List (RepoDescriptor K)
          → Exec (K.World) ℕ
      copy_repos ctx policy opts destination options number [] = pure number
      copy_repos ctx policy opts destination options number (repo ∷ repos) = do
        let options' = record options { source_ctx = repo.context }
        number' ←
            copy_refs ctx policy opts destination repo.dir_base_path options' number repo.image_refs
        copy_repos ctx policy opts destination options number' repos

      -- `options` of `run`. Its source context stands for the nil that the loop replaces.
      abbrev pub copy_options :
          SyncOptions → SystemContext K → SystemContext K → Text → CopyOptions K
      copy_options opts source_ctx destination_ctx manifest_type = record {
        remove_signatures = opts.remove_signatures;
        sign_by = opts.sign_by_fingerprint;
        report_writer = some os_stdout;
        source_ctx = source_ctx;
        destination_ctx = destination_ctx;
        image_list_selection = if opts.all then copy_all_images else copy_system_image;
        optimize_destination_image_already_exists = true;
        force_manifest_mime_type = manifest_type;
        oci_decrypt_config = none;
        oci_encrypt_layers = none;
        oci_encrypt_config = none;
      }

      abbrev pub manifest_type_of : OptionalString → Result Text
      manifest_type_of format =
          if format.present then parse_manifest_format N.media_types format.value else ok []

      abbrev reject : Option GoError → Exec (K.World) (Unit {0})
      reject none = pure tt
      reject (some e) = fail e

      module _ (parse_yaml : Text → Result (List (Text × RawRegistry))) where
        -- `run` from the policy context on.
        unfoldable pub run_with_policy :
            SyncOptions → Text → Text → K.PolicyContext → Exec (K.World) (Unit {0})
        run_with_policy opts source_arg destination policy = do
          reject (check_transports opts)
          source_ctx ← lift (image_system_context K opts.src_image)
          manifest_type ← lift (manifest_type_of opts.format)
          let ctx = command_timeout_context opts.global
          repos ←
              N.retry_if_necessary (List (RepoDescriptor K)) ctx opts.retry_opts
                (images_to_copy K R N H parse_yaml source_arg opts.source source_ctx)
          destination_ctx ← lift (dest_system_context K N.algorithm_by_name opts.dest_image)
          copy_repos ctx policy opts destination
              (copy_options opts source_ctx destination_ctx manifest_type) 0 repos
          pure tt

        unfoldable pub run : SyncOptions → List Text → Exec (K.World) (Unit {0})
        run opts (source_arg ∷ destination ∷ []) = do
          warn_if_used K H opts.deprecated_tls_verify two_sides
          policy ←
              or_wrap (λ e. wrapped e "Error loading trust policy" [])
                (get_policy_context K N opts.global)
          destroying K N policy (run_with_policy opts source_arg destination policy)
        run opts _ = fail (should_display_usage (errorf "Exactly two arguments expected" []))
