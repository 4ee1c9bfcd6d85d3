-- ===== src/Sync/Run/Success.antt =====
-- What a run of `skopeo sync` that succeeds has done.
use skopeo.Prelude.{◌≡◌, ◌↔◌, refl, ◌∙◌, ap, Option, none, some, List, [], ◌∷◌}
use skopeo.Prelude.Texts.{Text}
use skopeo.Go.{Result, ok, GoError, wrapped, Exec, continue, or_wrap}
use skopeo.Go.Laws.{then_ok, then_lift, or_wrap_of_ok, lift_ok, step_ok, or_wrap-eq-ok}
use skopeo.External.Context.{Kinds, SystemContext}
use skopeo.External.Libraries.{References, Host, Remote}
use skopeo.Options.{image_system_context, dest_system_context, command_timeout_context}
use skopeo.Options.Warnings.{two_sides, warn_if_used}
use skopeo.Policy.{get_policy_context}
use skopeo.Policy.Laws.{destroying-eq-ok, destroying_of_ok}
use skopeo.Sync.Config.{RepoDescriptor, RawRegistry}
use skopeo.Sync.Registry.{images_to_copy}
use skopeo.Sync.Run.{
  SyncOptions, check_transports, copy_options, copy_repos, manifest_type_of, reject,
  run_with_policy, run,
}
use skopeo.Sync.Run.Copies.{Done, jobs, copy_repos-Done}

module _ (K : Kinds) (R : References K) (H : Host K) (N : Remote K)
    (parse_yaml : Text → Result (List (Text × RawRegistry))) (opts : SyncOptions)
    (source_arg destination : Text) where
  -- The stages that hold a policy context: the checks, the images of the source, and the copies of
  -- all of them.
  pub record Stages (policy : K.PolicyContext) (loaded copied : K.World) : Type 0 where
    pub source_ctx : SystemContext K
    pub destination_ctx : SystemContext K
    pub manifest_type : Text
    pub repos : List (RepoDescriptor K)
    pub listed : K.World
    pub checks : check_transports K R opts ≡ none
    pub reads_source : image_system_context K opts.src_image ≡ ok source_ctx
    pub reads_format : manifest_type_of K R H N opts.format ≡ ok manifest_type
    pub lists :
        N.retry_if_necessary
          (List (RepoDescriptor K))
          (command_timeout_context opts.global)
          opts.retry_opts
          (images_to_copy K R N H parse_yaml source_arg opts.source source_ctx)
          loaded
        ≡ (ok repos, listed)
    pub reads_destination :
        dest_system_context K N.algorithm_by_name opts.dest_image ≡ ok destination_ctx
    pub copies :
        Done K R H N
          (command_timeout_context opts.global)
          policy
          opts
          destination
          (copy_options K R H N opts source_ctx destination_ctx manifest_type)
          (jobs repos)
          listed
          copied

  -- The world after the warning, or the same world with no deprecated flag.
  abbrev pub warned_of : K.World → K.World
  warned_of w = (warn_if_used K H opts.deprecated_tls_verify two_sides w).1

  -- A run from world `w` to world `w'`: the policy context is loaded, and destroyed at the end.
  pub record Synced (w w' : K.World) : Type 0 where
    pub policy : K.PolicyContext
    pub loaded : K.World
    pub copied : K.World
    pub loads : get_policy_context K N opts.global (warned_of w) ≡ (ok policy, loaded)
    pub stages : Stages policy loaded copied
    pub destroys : N.destroy policy copied ≡ w'

  reject_ok :
      {P : Type 0} (o : Option GoError) (f : Unit {0} → Exec (K.World) (Unit {0})) (w : K.World)
      {w' : K.World}
      → continue (reject K R H N o w) f ≡ (ok tt, w')
      → (o ≡ none → f tt w ≡ (ok tt, w') → P)
      → P
  reject_ok none f w h k = k refl h
  reject_ok (some e) f w h k = cc

  run_with_policy-Stages :
      (policy : K.PolicyContext) (w w' : K.World)
      → run_with_policy K R H N parse_yaml opts source_arg destination policy w ≡ (ok tt, w')
      → Stages policy w w'
  unfolding run_with_policy
  run_with_policy-Stages policy w w' h = reject_ok (check_transports K R opts) _ w h λ checks h1.
      lift_ok (image_system_context K opts.src_image) _ w h1 λ source_ctx reads_source h2.
        lift_ok (manifest_type_of K R H N opts.format) _ w h2 λ manifest_type reads_format h3.
          step_ok
            (N.retry_if_necessary (List (RepoDescriptor K)) (command_timeout_context opts.global)
              opts.retry_opts (images_to_copy K R N H parse_yaml source_arg opts.source source_ctx)
              w)
            _ h3
            λ repos listed lists h4.
              lift_ok (dest_system_context K N.algorithm_by_name opts.dest_image) _ listed h4
                λ destination_ctx reads_destination h5.
                  step_ok
                    (copy_repos K R H N (command_timeout_context opts.global) policy opts
                      destination
                      (copy_options K R H N opts source_ctx destination_ctx manifest_type) 0 repos
                      listed)
                    _ h5
                    λ number copied copying h6. record {
                      source_ctx = source_ctx;
                      destination_ctx = destination_ctx;
                      manifest_type = manifest_type;
                      repos = repos;
                      listed = listed;
                      checks = checks;
                      reads_source = reads_source;
                      reads_format = reads_format;
                      lists = lists;
                      reads_destination = reads_destination;
                      copies =
                          ((copy_repos-Done K R H N _ policy opts destination _ 0 repos listed w'
                              number).0
                            (copying ∙ ap (λ r. (ok number, r.1)) h6)).0;
                    }

  reject-none :
      (o : Option GoError) (f : Unit {0} → Exec (K.World) (Unit {0})) (w : K.World)
      {r : Result (Unit {0}) × K.World}
      → o ≡ none
      → f tt w ≡ r
      → continue (reject K R H N o w) f ≡ r
  reject-none o f w p q = ap (λ x. continue (reject K R H N x w) f) p ∙ q

  with_policy_of_Stages :
      (policy : K.PolicyContext) (w w' : K.World)
      → Stages policy w w'
      → run_with_policy K R H N parse_yaml opts source_arg destination policy w ≡ (ok tt, w')
  unfolding run_with_policy
  with_policy_of_Stages policy w w' s = reject-none (check_transports K R opts) _ w s.checks (
      then_lift (image_system_context K opts.src_image) _ w s.reads_source (
        then_lift (manifest_type_of K R H N opts.format) _ w s.reads_format (
          then_ok
            (N.retry_if_necessary (List (RepoDescriptor K)) (command_timeout_context opts.global)
              opts.retry_opts
              (images_to_copy K R N H parse_yaml source_arg opts.source s.source_ctx) w)
            _ s.lists
            (then_lift (dest_system_context K N.algorithm_by_name opts.dest_image) _ s.listed
              s.reads_destination
              (then_ok
                (copy_repos K R H N (command_timeout_context opts.global) policy opts destination
                  (copy_options K R H N opts s.source_ctx s.destination_ctx s.manifest_type) 0
                  s.repos s.listed)
                _
                ((copy_repos-Done K R H N _ policy opts destination _ 0 s.repos s.listed w' _).1
                  (s.copies, refl))
                refl)))))

  -- A run of `skopeo sync` on two arguments succeeds exactly when it goes through all its stages: it
  -- warns of a deprecated flag, if that was given; it loads a policy context; its transports pass the
  -- checks; the flags make the source context, the manifest type and the destination context; the
  -- source is listed; every image of every repository that was listed is copied, in order; and the
  -- policy context is destroyed at the end.
  pub run-Synced :
      (w w' : K.World)
      → (run K R H N parse_yaml opts (source_arg ∷ destination ∷ []) w ≡ (ok tt, w')) ↔ Synced w w'
  unfolding run warn_if_used
  run-Synced w w' = (
    λ h.
        step_ok
          (or_wrap (λ e. wrapped e "Error loading trust policy" [])
            (get_policy_context K N opts.global) (warned_of w))
          _ h
          λ policy loaded p h1.
            let (copied, q, destroys) = destroying-eq-ok K N policy _ loaded w' h1 in
            record {
              policy = policy;
              loaded = loaded;
              copied = copied;
              loads = or_wrap-eq-ok _ (get_policy_context K N opts.global) (warned_of w) p;
              stages = run_with_policy-Stages policy loaded copied q;
              destroys = destroys;
            },
    λ s.
        then_ok
          (or_wrap (λ e. wrapped e "Error loading trust policy" [])
            (get_policy_context K N opts.global) (warned_of w))
          _ (or_wrap_of_ok _ (get_policy_context K N opts.global) (warned_of w) s.loads)
          (destroying_of_ok K N s.policy _ s.loaded s.copied w'
            (with_policy_of_Stages s.policy s.loaded s.copied s.stages) s.destroys),
  )
