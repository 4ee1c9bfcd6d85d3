-- ===== src/Sync/Registry.antt =====
-- `imagesToCopyFromRegistry` and `imagesToCopy`: the images that a source names.
pub mod Laws
pub mod Served
use skopeo.Prelude.{
  Bool, true, false, not, ◌&&◌, Option, none, some, List, [], ◌∷◌, ◌++◌, if◌then◌else◌,
}
use skopeo.Prelude.Lists.{is_empty}
use skopeo.Prelude.Texts.{Text, lit, ◌==◌, is_blank}
use skopeo.Go.{
  Result, ok, err, GoError, errorf, wrapped, Exec, continue, ◌>>=◌, ◌>>◌, lift, pure, or_wrap,
  reject_if,
}
use skopeo.External.Context.{
  Kinds, SystemContext, OptionalTruth, undefined, optional_true, optional_false, DockerAuthConfig,
}
use skopeo.External.Libraries.{References, Host, Remote, docker, directory}
use skopeo.Sync.Config.{
  RepoDescriptor, RegistrySyncConfig, SourceConfig, RawRegistry, new_source_config,
}
use skopeo.Sync.Source.{parse_repository_reference, images_to_copy_from_repo}
use skopeo.Sync.Walk.{images_to_copy_from_dir}

abbrev pub is_true : OptionalTruth → Bool
is_true optional_true = true
is_true _ = false

-- `cfg.Credentials == (types.DockerAuthConfig{})`
abbrev pub is_zero_auth : DockerAuthConfig → Bool
is_zero_auth auth = is_blank auth.username && is_blank auth.password && is_blank auth.identity_token

module _ (K : Kinds) where
  -- The copy of the source's context that holds the options of one registry.
  unfoldable pub server_context : RegistrySyncConfig → SystemContext K → SystemContext K
  server_context cfg source_ctx = record source_ctx {
    docker_cert_path = cfg.cert_dir;
    docker_daemon_cert_path = cfg.cert_dir;
    docker_daemon_insecure_skip_tls_verify = is_true cfg.tls_verify.skip;
    docker_insecure_skip_tls_verify = cfg.tls_verify.skip;
    docker_auth_config =
        if is_zero_auth cfg.credentials
        then source_ctx.docker_auth_config
        else some cfg.credentials;
  }

  -- What one repository adds to the descriptors: nothing after an error, or with no images.
  abbrev pub descriptors_of :
      SystemContext K → Result (List (K.ImageReference)) → List (RepoDescriptor K)
  descriptors_of ctx (err e) = []
  descriptors_of ctx (ok []) = []
  descriptors_of ctx (ok (ref ∷ refs)) =
      record { dir_base_path = []; image_refs = ref ∷ refs; context = ctx } ∷ []

  -- A loop whose rounds each add descriptors.
  unfoldable pub gather :
      {X D : Type 0} → (X → K.World → List D × K.World) → List X → K.World → List D × K.World
  gather round [] w = ([], w)
  gather round (x ∷ xs) w =
      let (ds, w') = round x w in let (es, w'') = gather round xs w' in (ds ++ es, w'')

module _ (K : Kinds) (R : References K) where
  abbrev pub name_of_ref : K.Named → Text → Result (K.Digest) → Result (K.Named)
  name_of_ref repo_ref ref (ok d) = R.with_digest repo_ref d
  name_of_ref repo_ref ref (err e) = R.with_tag repo_ref ref

  abbrev pub reference_of : Result (K.Named) → List (K.ImageReference)
  reference_of (err e) = []
  reference_of (ok named) = elim (R.new_reference named) [ err e ↦ [] | ok ref ↦ ref ∷ [] ]

  -- The loop over the tags and digests of one image: what cannot be parsed is skipped.
  unfoldable pub refs_of_texts : K.Named → List Text → List (K.ImageReference)
  refs_of_texts repo_ref [] = []
  refs_of_texts repo_ref (ref ∷ refs) =
      reference_of (name_of_ref repo_ref ref (R.parse_digest ref)) ++ refs_of_texts repo_ref refs

  abbrev pub tag_of : K.ImageReference → Option Text
  tag_of ref = elim (R.docker_reference ref) [ none ↦ none | some named ↦ R.tag? named ]

  abbrev pub keeps_ref : (Text → Bool) → Option Text → Bool
  keeps_ref matches none = false
  keeps_ref matches (some tag) = matches tag

  -- The filter by a regular expression.
  unfoldable pub matching : (Text → Bool) → List (K.ImageReference) → List (K.ImageReference)
  matching matches [] = []
  matching matches (ref ∷ refs) =
      let rest = matching matches refs in
      if keeps_ref matches (tag_of ref) then ref ∷ rest else rest

  module _ (N : Remote K) where
    abbrev pub listed_refs :
        SystemContext K → List Text → K.Named → Exec (K.World) (List (K.ImageReference))
    listed_refs ctx refs repo_ref =
        if is_empty refs
        then images_to_copy_from_repo K R N ctx repo_ref
        else pure (refs_of_texts repo_ref refs)

    -- One round of the loop over `cfg.Images`.
    unfoldable pub listed_images :
        Text → SystemContext K → Text × List Text → K.World → List (RepoDescriptor K) × K.World
    listed_images registry_name ctx (image_name, refs) w =
        let (found, w') =
          (do
            repo_ref ← parse_repository_reference K R (registry_name ++ b'/' ∷ image_name)
            listed_refs ctx refs repo_ref)
            w in
        (descriptors_of K ctx found, w')

    -- One round of the loop over `cfg.ImagesByTagRegex`.
    unfoldable pub regex_images :
        Text → SystemContext K → Text × Text → K.World → List (RepoDescriptor K) × K.World
    regex_images registry_name ctx (image_name, tag_regex) w =
        let (found, w') =
          (do
            repo_ref ← parse_repository_reference K R (registry_name ++ b'/' ∷ image_name)
            matches ← lift (R.compile_regexp tag_regex)
            all ← images_to_copy_from_repo K R N ctx repo_ref
            pure (matching matches all))
            w in
        (descriptors_of K ctx found, w')

    unfoldable pub images_to_copy_from_registry :
        Text → RegistrySyncConfig → SystemContext K → Exec (K.World) (List (RepoDescriptor K))
    images_to_copy_from_registry registry_name cfg source_ctx w =
        let ctx = server_context K cfg source_ctx in
        let (listed, w') = gather K (listed_images registry_name ctx) cfg.images w in
        let (by_regex, w'') =
          gather K (regex_images registry_name ctx) cfg.images_by_tag_regex w' in
        (ok (listed ++ by_regex), w'')

    -- The loop over the registries of a YAML file.
    unfoldable pub images_of_registries :
        SystemContext K → SourceConfig → Exec (K.World) (List (RepoDescriptor K))
    images_of_registries ctx [] = pure []
    images_of_registries ctx ((name, cfg) ∷ registries) =
        let rest = images_of_registries ctx registries in
        if is_empty cfg.images && is_empty cfg.images_by_tag_regex then rest else do
          descs ←
              or_wrap
                (λ e. wrapped e "Failed to retrieve list of images from registry %q" (name ∷ []))
                (images_to_copy_from_registry name cfg ctx)
          more ← rest
          pure (descs ++ more)

    -- `desc`, unless it has no images.
    abbrev one_descriptor : Text → RepoDescriptor K → Exec (K.World) (List (RepoDescriptor K))
    one_descriptor source desc = do
      reject_if (is_empty desc.image_refs) (errorf "No images to sync found in %q" (source ∷ []))
      pure (desc ∷ [])

    abbrev docker_error : Text → GoError → GoError
    docker_error text e =
        wrapped e "Cannot obtain a valid image reference for transport %q and reference %q"
          (R.transport_name docker ∷ text ∷ [])

    abbrev pub refs_of_named : SystemContext K → K.Named → Exec (K.World) (List (K.ImageReference))
    refs_of_named ctx named =
        if R.is_name_only named then images_to_copy_from_repo K R N ctx named else (do
          ref ← or_wrap (docker_error (R.string named)) (lift (R.new_reference named))
          pure (ref ∷ []))

    -- The `docker` case of `imagesToCopy`. A reference with a tag or a digest gives one image, so the
    -- test for none is about a repository.
    unfoldable pub images_from_docker :
        Text → SystemContext K → Exec (K.World) (List (RepoDescriptor K))
    images_from_docker source ctx = do
      named ← or_wrap (docker_error source) (lift (R.parse_normalized_named source))
      refs ← refs_of_named ctx named
      one_descriptor source (record { dir_base_path = []; image_refs = refs; context = ctx })

    module _ (H : Host K) (parse_yaml : Text → Result (List (Text × RawRegistry))) where
      -- The `dir` case.
      unfoldable pub images_from_dir :
          Text → SystemContext K → Exec (K.World) (List (RepoDescriptor K))
      images_from_dir source ctx = do
        or_wrap (λ e. wrapped e "Invalid source directory specified" []) (H.stat source)
        refs ← images_to_copy_from_dir K R H source
        one_descriptor source (record { dir_base_path = source; image_refs = refs; context = ctx })

      unfoldable pub images_to_copy :
          Text → Text → SystemContext K → Exec (K.World) (List (RepoDescriptor K))
      images_to_copy source transport ctx =
          if transport == R.transport_name docker
          then images_from_docker source ctx
          else if transport == R.transport_name directory
          then images_from_dir source ctx
          else if transport == lit "yaml"
          then (do cfg ← new_source_config K H parse_yaml source; images_of_registries ctx cfg)
          else pure []
