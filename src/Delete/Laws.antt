-- ===== src/Delete/Laws.antt =====
-- What a run of `skopeo delete` that succeeds has done.
use skopeo.Prelude.{◌≡◌, [], ◌∷◌}
use skopeo.Prelude.Int.{pos_part}
use skopeo.Prelude.Texts.{Text}
use skopeo.Go.{ok, Exec}
use skopeo.Go.Laws.{step_ok, lift_ok, or_wrap-lift_ok}
use skopeo.Go.Retry.{Runs}
use skopeo.External.Context.{Kinds, SystemContext, Context}
use skopeo.External.Retry.{IsRetry}
use skopeo.External.Libraries.{References, Remote}
use skopeo.External.Process.{Process}
use skopeo.Options.{command_timeout_context, image_system_context}
use skopeo.Unshare.{reexec_if_necessary_for_images}
use skopeo.Delete.{DeleteOptions, run}

module _ (K : Kinds) (R : References K) (N : Remote K) (P : Process K)
    (delete_image : K.ImageReference → Context → SystemContext K → Exec (K.World) (Unit {0}))
    (opts : DeleteOptions) (image_name : Text) where
  -- A run from world `w` to world `w'`. The last try of the deletion succeeded.
  pub record Deleted (w w' : K.World) : Type 0 where
    pub ref : K.ImageReference
    pub sys : SystemContext K
    pub looked_at : K.World
    pub looks : reexec_if_necessary_for_images K P R (image_name ∷ []) w ≡ (ok tt, looked_at)
    pub parses : R.parse_image_name image_name ≡ ok ref
    pub reads : image_system_context K opts.image ≡ ok sys
    pub deletes :
        Runs
          (delete_image ref (command_timeout_context opts.global) sys)
          (ok tt, w')
          (pos_part opts.retry_opts.max_retry)
          looked_at

  -- Where retries are what package retry documents, a run of `skopeo delete` on one argument that
  -- succeeds looked whether it needs a user namespace, parsed the name, made the context from the
  -- flags, and then did nothing but try to delete the image of that name: every try but the last
  -- failed, the last succeeded, and there were at most `--retry-times` retries.
  pub run-Deleted :
      (retry : IsRetry K N) (w w' : K.World)
      → run K R N P delete_image opts (image_name ∷ []) w ≡ (ok tt, w')
      → Deleted w w'
  unfolding run
  run-Deleted retry w w' h =
      step_ok (reexec_if_necessary_for_images K P R (image_name ∷ []) w) _ h
        λ done looked_at looks h1.
          or_wrap-lift_ok _ (R.parse_image_name image_name) _ looked_at h1 λ ref parses h2.
            lift_ok (image_system_context K opts.image) _ looked_at h2 λ sys reads h3.
              let ctx = command_timeout_context opts.global in
              record {
                ref = ref;
                sys = sys;
                looked_at = looked_at;
                looks = looks;
                parses = parses;
                reads = reads;
                deletes = rw (← h3) (
                    retry.runs (Unit {0}) ctx opts.retry_opts (delete_image ref ctx sys) looked_at);
              }
