-- ===== src/Copy/Success.antt =====
-- What a run of `skopeo copy` that succeeds has done.
use skopeo.Prelude.{◌↔◌, ap, ◌≡◌, List, [], ◌∷◌}
use skopeo.Prelude.Texts.{Text}
use skopeo.Go.{ok, errorf_of, or_wrap, lift}
use skopeo.Go.Laws.{
  then_ok, then_lift, or_wrap_of_ok, lift_ok, step_ok, or_wrap-eq-ok, or_wrap-lift_ok,
}
use skopeo.External.Context.{Kinds, SystemContext}
use skopeo.External.Contents.{Crypto, Digests}
use skopeo.External.Libraries.{References, Host, Remote}
use skopeo.External.Process.{Process}
use skopeo.Options.{image_system_context, dest_system_context, command_timeout_context}
use skopeo.Options.Warnings.{two_sides, warn_if_used}
use skopeo.Policy.{get_policy_context}
use skopeo.Policy.Laws.{destroying-eq-ok, destroying_of_ok}
use skopeo.Unshare.{reexec_if_necessary_for_images}
use skopeo.Copy.{
  CopyCmdOptions, CryptoSettings, add_tags, crypto_settings, copy_once, copy_options,
  manifest_type_of, copy_with_policy, run,
}
use skopeo.Copy.Tags.{Tagged, with_tags, add_tags-Tagged, add_tags_of_Tagged}
use skopeo.Copy.Laws.{Settled, crypto_settings-Settled}

module _ (K : Kinds) (R : References K) (H : Host K) (N : Remote K) (D : Digests K) where
  module _ (P : Process K) (C : Crypto K) (opts : CopyCmdOptions) (src dest : Text) where
    -- The stages that hold a policy context.
    pub record CopyStages (policy : K.PolicyContext) (loaded copied : K.World) : Type 0 where
      pub src_ref : K.ImageReference
      pub dest_ref : K.ImageReference
      pub source_ctx : SystemContext K
      pub base_ctx : SystemContext K
      pub manifest_type : Text
      pub tags : List (K.Named)
      pub settings : CryptoSettings K
      pub settled : K.World
      pub parses_source : R.parse_image_name src ≡ ok src_ref
      pub parses_destination : R.parse_image_name dest ≡ ok dest_ref
      pub reads_source : image_system_context K opts.src_image ≡ ok source_ctx
      pub reads_destination :
          dest_system_context K N.algorithm_by_name opts.dest_image ≡ ok base_ctx
      pub reads_format : manifest_type_of K R H N D opts.format ≡ ok manifest_type
      pub reads_tags : Tagged K R opts.additional_tags tags
      pub settles : Settled K C opts settings loaded settled
      pub copies :
          N.retry_if_necessary
            (Unit {0})
            (command_timeout_context opts.global)
            opts.retry_opts
            (copy_once K R H N D
              (command_timeout_context opts.global)
              policy
              opts
              dest_ref
              src_ref
              (copy_options K R H N D opts source_ctx
                (with_tags K R base_ctx tags)
                manifest_type
                settings))
            settled
          ≡ (ok tt, copied)

    -- The world after the warning, or the same world with no deprecated flag.
    abbrev pub warned_of : K.World → K.World
    warned_of w = (warn_if_used K H opts.deprecated_tls_verify two_sides w).1

    pub record Copied (w w' : K.World) : Type 0 where
      pub policy : K.PolicyContext
      pub looked_at : K.World
      pub loaded : K.World
      pub copied : K.World
      pub looks :
          reexec_if_necessary_for_images K P R (src ∷ dest ∷ []) (warned_of w) ≡ (ok tt, looked_at)
      pub loads : get_policy_context K N opts.global looked_at ≡ (ok policy, loaded)
      pub stages : CopyStages policy loaded copied
      pub destroys : N.destroy policy copied ≡ w'

    copy_with_policy-CopyStages :
        (policy : K.PolicyContext) (w w' : K.World)
        → copy_with_policy K R H N D P C opts src dest policy w ≡ (ok tt, w')
        → CopyStages policy w w'
    unfolding copy_with_policy
    copy_with_policy-CopyStages policy w w' h =
        or_wrap-lift_ok _ (R.parse_image_name src) _ w h λ src_ref parses_source h1.
          or_wrap-lift_ok _ (R.parse_image_name dest) _ w h1 λ dest_ref parses_destination h2.
            lift_ok (image_system_context K opts.src_image) _ w h2 λ source_ctx reads_source h3.
              lift_ok (dest_system_context K N.algorithm_by_name opts.dest_image) _ w h3
                λ base_ctx reads_destination h4.
                  lift_ok (manifest_type_of K R H N D opts.format) _ w h4
                    λ manifest_type reads_format h5.
                      step_ok (add_tags K R opts.additional_tags base_ctx w) _ h5
                        λ destination_ctx v added h6.
                          step_ok (crypto_settings K C opts v) _ h6 λ settings settled settling h7.
                            let (tags, reads_tags, tagged, still) =
                              add_tags-Tagged K R opts.additional_tags base_ctx w v added in
                            record {
                              src_ref = src_ref;
                              dest_ref = dest_ref;
                              source_ctx = source_ctx;
                              base_ctx = base_ctx;
                              manifest_type = manifest_type;
                              tags = tags;
                              settings = settings;
                              settled = settled;
                              parses_source = parses_source;
                              parses_destination = parses_destination;
                              reads_source = reads_source;
                              reads_destination = reads_destination;
                              reads_format = reads_format;
                              reads_tags = reads_tags;
                              settles = rw still (
                                  (crypto_settings-Settled K C opts settings v settled).0 settling);
                              copies = rw (← tagged) h7;
                            }

    with_policy_of_CopyStages :
        (policy : K.PolicyContext) (w w' : K.World)
        → CopyStages policy w w'
        → copy_with_policy K R H N D P C opts src dest policy w ≡ (ok tt, w')
    unfolding copy_with_policy
    with_policy_of_CopyStages policy w w' s =
        then_ok (or_wrap _ (lift (R.parse_image_name src)) w) _
          (or_wrap_of_ok _ (lift (R.parse_image_name src)) w (ap (λ r. (r, w)) s.parses_source))
          (then_ok (or_wrap _ (lift (R.parse_image_name dest)) w) _
            (or_wrap_of_ok _ (lift (R.parse_image_name dest)) w
              (ap (λ r. (r, w)) s.parses_destination))
            (then_lift (image_system_context K opts.src_image) _ w s.reads_source (
              then_lift (dest_system_context K N.algorithm_by_name opts.dest_image) _ w
                s.reads_destination
                (then_lift (manifest_type_of K R H N D opts.format) _ w s.reads_format (
                  then_ok (add_tags K R opts.additional_tags s.base_ctx w) _
                    (add_tags_of_Tagged K R s.base_ctx w s.reads_tags)
                    (then_ok (crypto_settings K C opts w) _
                      ((crypto_settings-Settled K C opts s.settings w s.settled).1 s.settles)
                      s.copies))))))

    run_to-Copied :
        (w w' : K.World) → run K R H N D P C opts (src ∷ dest ∷ []) w ≡ (ok tt, w') → Copied w w'
    unfolding run warn_if_used
    run_to-Copied w w' h =
        step_ok (reexec_if_necessary_for_images K P R (src ∷ dest ∷ []) (warned_of w)) _ h
          λ done looked_at looks h1.
            step_ok
              (or_wrap (errorf_of "Error loading trust policy: %v" [])
                (get_policy_context K N opts.global) looked_at)
              _ h1
              λ policy loaded p h2.
                let (copied, q, destroys) = destroying-eq-ok K N policy _ loaded w' h2 in
                record {
                  policy = policy;
                  looked_at = looked_at;
                  loaded = loaded;
                  copied = copied;
                  looks = looks;
                  loads = or_wrap-eq-ok _ (get_policy_context K N opts.global) looked_at p;
                  stages = copy_with_policy-CopyStages policy loaded copied q;
                  destroys = destroys;
                }

    -- A run of `skopeo copy` on two arguments succeeds exactly when it goes through all its stages:
    -- it warns of a deprecated flag, if that was given; it looks whether it needs a user namespace;
    -- it loads a policy context; it parses both image names, the options, the additional tags, which
    -- stand in the destination context in their order, and the keys; the library copies the image
    -- with these, under the retries, and writes the digest file; and the policy context is destroyed
    -- at the end.
    pub run-Copied :
        (w w' : K.World) → (run K R H N D P C opts (src ∷ dest ∷ []) w ≡ (ok tt, w')) ↔ Copied w w'
    unfolding run warn_if_used
    run-Copied w w' = (
      run_to-Copied w w',
      λ s.
          then_ok (reexec_if_necessary_for_images K P R (src ∷ dest ∷ []) (warned_of w)) _ s.looks (
            then_ok
              (or_wrap (errorf_of "Error loading trust policy: %v" [])
                (get_policy_context K N opts.global) s.looked_at)
              _ (or_wrap_of_ok _ (get_policy_context K N opts.global) s.looked_at s.loads)
              (destroying_of_ok K N s.policy _ s.loaded s.copied w'
                (with_policy_of_CopyStages s.policy s.loaded s.copied s.stages) s.destroys)),
    )
