-- ===== src/Delete.antt =====
-- cmd/skopeo/delete.go
pub mod Laws
use skopeo.Prelude.{List, [], ◌∷◌}
use skopeo.Prelude.Texts.{Text}
use skopeo.Go.{errorf, errorf_of, Exec, ◌>>=◌, ◌>>◌, fail, lift, or_wrap}
use skopeo.External.Context.{Kinds, SystemContext, Context}
use skopeo.External.Libraries.{References, Remote}
use skopeo.External.Process.{Process}
use skopeo.Options.{
  GlobalOptions, ImageOptions, RetryOptions, command_timeout_context, image_system_context,
}
use skopeo.Unshare.{reexec_if_necessary_for_images}

pub record DeleteOptions : Type 0 where
  pub global : GlobalOptions
  pub image : ImageOptions
  pub retry_opts : RetryOptions

module _ (K : Kinds) (R : References K) (N : Remote K) (P : Process K)
    (delete_image : K.ImageReference → Context → SystemContext K → Exec (K.World) (Unit {0})) where
  unfoldable pub run : DeleteOptions → List Text → Exec (K.World) (Unit {0})
  run opts (image_name ∷ []) = do
    reexec_if_necessary_for_images K P R (image_name ∷ [])
    ref ←
        or_wrap (errorf_of "Invalid source name %s: %v" (image_name ∷ []))
          (lift (R.parse_image_name image_name))
    sys ← lift (image_system_context K opts.image)
    let ctx = command_timeout_context opts.global
    N.retry_if_necessary (Unit {0}) ctx opts.retry_opts (delete_image ref ctx sys)
  run opts _ = fail (errorf "Usage: delete imageReference" [])
