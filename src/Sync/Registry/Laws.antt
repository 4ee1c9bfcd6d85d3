-- ===== src/Sync/Registry/Laws.antt =====
-- What the descriptors of a source hold.
use mathlib.Core.Path.{subst}
use skopeo.Prelude.{◌≡◌, refl, inl, inr, false, ◌&&◌, Bool-cases, List, [], ◌∷◌, ◌++◌, arith}
use skopeo.Prelude.Lists.{All, All-append, is_empty}
use skopeo.Prelude.Texts.{Text, lit, ◌==◌}
use skopeo.Go.{Result, ok, err, or_wrap, wrapped, lift}
use skopeo.Go.Laws.{step_ok}
use skopeo.External.Context.{Kinds, SystemContext}
use skopeo.External.Libraries.{References, Host, Remote, docker, directory}
use skopeo.Sync.Config.{
  RepoDescriptor, RegistrySyncConfig, SourceConfig, RawRegistry, new_source_config,
}
use skopeo.Sync.Walk.{images_to_copy_from_dir}
use skopeo.Sync.Registry.{
  docker_error, refs_of_named, one_descriptor, descriptors_of, gather, listed_images, regex_images,
  images_to_copy_from_registry, images_of_registries, images_from_docker, images_from_dir,
  images_to_copy,
}

module _ (K : Kinds) where
  -- The descriptor has images.
  abbrev pub HasImages : RepoDescriptor K → Type 0
  HasImages desc = is_empty desc.image_refs ≡ false

  descriptors_of-HasImages :
      (ctx : SystemContext K) (r : Result (List (K.ImageReference)))
      → All HasImages (descriptors_of K ctx r)
  descriptors_of-HasImages ctx (err e) = tt
  descriptors_of-HasImages ctx (ok []) = tt
  descriptors_of-HasImages ctx (ok (ref ∷ refs)) = (refl, tt)

  gather-All :
      {X D : Type 0} (P : D → Type 0) (round : X → K.World → List D × K.World)
      → ((x : X) (w : K.World) → All P (round x w).0)
      → (xs : List X) (w : K.World) → All P (gather K round xs w).0
  unfolding gather
  gather-All P round h [] w = tt
  gather-All P round h (x ∷ xs) w = All-append P _ _ (h x w) (gather-All P round h xs (round x w).1)

module _ (K : Kinds) (R : References K) (N : Remote K) where
  -- Each descriptor of a registry has images.
  registry-HasImages :
      (registry_name : Text) (cfg : RegistrySyncConfig) (source_ctx : SystemContext K) (w : K.World)
      → (descs : List (RepoDescriptor K)) × (w' : K.World) × (images_to_copy_from_registry K R N
            registry_name cfg source_ctx w
          ≡ (ok descs, w'))
        × All (HasImages K) descs
  unfolding images_to_copy_from_registry listed_images regex_images
  registry-HasImages registry_name cfg source_ctx w = (
    _,
    _,
    refl,
    All-append _ _ _ (gather-All K _ _ (λ x v. descriptors_of-HasImages K _ _) cfg.images w)
        (gather-All K _ _ (λ x v. descriptors_of-HasImages K _ _) cfg.images_by_tag_regex _),
  )

  images_of_registries-HasImages :
      (ctx : SystemContext K) (cfg : SourceConfig) (w w' : K.World)
      (descs : List (RepoDescriptor K))
      → images_of_registries K R N ctx cfg w ≡ (ok descs, w')
      → All (HasImages K) descs
  unfolding images_of_registries
  images_of_registries-HasImages ctx [] w w' descs h = let e : descs ≡ [] = ground arith in rw e tt
  images_of_registries-HasImages ctx ((name, cfg) ∷ registries) w w' descs h =
      elim (Bool-cases (is_empty cfg.images && is_empty cfg.images_by_tag_regex)) [
        | inl p ↦ images_of_registries-HasImages ctx registries w w' descs (rw p at h)
        | inr p ↦
            let (ds, v, e, have) = registry-HasImages name cfg ctx w in
            step_ok (images_of_registries K R N ctx registries v) _ (rw (p, e) at h) λ more u hm hd.
              let same : ds ++ more ≡ descs = ground arith in
              subst (All (HasImages K)) same (
                All-append (HasImages K) ds more have
                  (images_of_registries-HasImages ctx registries v u more hm))
      ]

  module _ (H : Host K) (parse_yaml : Text → Result (List (Text × RawRegistry))) where
    one_descriptor-HasImages :
        (source : Text) (desc : RepoDescriptor K) (w w' : K.World) (descs : List (RepoDescriptor K))
        → one_descriptor K R N source desc w ≡ (ok descs, w')
        → All (HasImages K) descs
    one_descriptor-HasImages source desc w w' descs h =
        elim (Bool-cases (is_empty desc.image_refs)) [
          | inl p ↦ cc (rw p at h)
          | inr p ↦
              let h' = rw p at h in
              let same : desc ∷ [] ≡ descs = ground arith in subst (All (HasImages K)) same (p, tt)
        ]

    images_from_docker-HasImages :
        (source : Text) (ctx : SystemContext K) (w w' : K.World) (descs : List (RepoDescriptor K))
        → images_from_docker K R N source ctx w ≡ (ok descs, w')
        → All (HasImages K) descs
    unfolding images_from_docker
    images_from_docker-HasImages source ctx w w' descs h =
        step_ok (or_wrap (docker_error K R N source) (lift (R.parse_normalized_named source)) w) _ h
          λ named v _ h1.
            step_ok (refs_of_named K R N ctx named v) _ h1
              λ refs u _ h2. one_descriptor-HasImages source _ u w' descs h2

    images_from_dir-HasImages :
        (source : Text) (ctx : SystemContext K) (w w' : K.World) (descs : List (RepoDescriptor K))
        → images_from_dir K R N H parse_yaml source ctx w ≡ (ok descs, w')
        → All (HasImages K) descs
    unfolding images_from_dir
    images_from_dir-HasImages source ctx w w' descs h =
        step_ok (or_wrap (λ e. wrapped e "Invalid source directory specified" []) (H.stat source) w)
          _ h
          λ _ v _ h1.
            step_ok (images_to_copy_from_dir K R H source v) _ h1
              λ refs u _ h2. one_descriptor-HasImages source _ u w' descs h2

    -- Every repository that is to be copied has images, whatever the transport of the source.
    pub images_to_copy-HasImages :
        (source transport : Text) (ctx : SystemContext K) (w w' : K.World)
        (descs : List (RepoDescriptor K))
        → images_to_copy K R N H parse_yaml source transport ctx w ≡ (ok descs, w')
        → All (HasImages K) descs
    unfolding images_to_copy
    images_to_copy-HasImages source transport ctx w w' descs h =
        elim (Bool-cases (transport == R.transport_name docker)) [
          | inl p ↦ images_from_docker-HasImages source ctx w w' descs (rw p at h)
          | inr p ↦ elim (Bool-cases (transport == R.transport_name directory)) [
            | inl q ↦ images_from_dir-HasImages source ctx w w' descs (rw (p, q) at h)
            | inr q ↦ elim (Bool-cases (transport == lit "yaml")) [
              | inl r ↦
                  step_ok (new_source_config K H parse_yaml source w) _ (rw (p, q, r) at h)
                    λ cfg v _ h1. images_of_registries-HasImages ctx cfg v w' descs h1
              | inr r ↦
                  let h' = rw (p, q, r) at h in
                  let none_left : [] ≡ descs = ground arith in
                  subst (All (HasImages K)) none_left tt
            ]
          ]
        ]
