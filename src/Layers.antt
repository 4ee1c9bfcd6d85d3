-- ===== src/Layers.antt =====
-- cmd/skopeo/layers.go
pub mod Blobs
pub mod Extract
pub mod Laws
use skopeo.Prelude.{Bool, true, false, List, [], ◌∷◌, if◌then◌else◌}
use skopeo.Prelude.Int.{ℤ, negsuc}
use skopeo.Prelude.Texts.{Text, lit}
use skopeo.Go.{
  GoError, Result, ok, err, errorf, wrapped_of, Exec, continue, ◌>>=◌, ◌>>◌, pure, fail, lift,
}
use skopeo.Go.Close.{closing}
use skopeo.External.Context.{Kinds, SystemContext, Context}
use skopeo.External.Contents.{Digests}
use skopeo.External.Images.{Images}
use skopeo.External.Libraries.{References, Remote}
use skopeo.External.Process.{Process}
use skopeo.ImageSource.{parse_image_source}
use skopeo.Options.{
  GlobalOptions, ImageOptions, RetryOptions, command_timeout_context, image_system_context,
}
use skopeo.Unshare.{reexec_if_necessary_for_images}
use Blobs.{BlobDigest, choose_blobs}

pub record LayersOptions : Type 0 where
  pub global : GlobalOptions
  pub image : ImageOptions
  pub retry_opts : RetryOptions

module _ (K : Kinds) (R : References K) (N : Remote K) (D : Digests K) (I : Images K) where
  -- A close after an error: `if closeErr := x.Close(); closeErr != nil { return Wrapf(err, ...) }`
  unfoldable pub fail_closing :
      {A : Type 0} → Exec (K.World) (Unit {0}) → GoError → Exec (K.World) A
  fail_closing close e w =
      let (c, w') = close w in
      (
        err (elim c [ ok _ ↦ e | err close_err ↦ wrapped_of e " (close error: %v)" [] close_err ]),
        w',
      )

  unfoldable pub or_closing :
      {A : Type 0} → Exec (K.World) (Unit {0}) → Result A × K.World → Result A × K.World
  or_closing close (ok a, w) = (ok a, w)
  or_closing close (err e, w) = fail_closing close e w

  unfoldable pub copy_blob :
      Context
      → RetryOptions
      → K.ImageSource
      → K.ImageDestination
      → K.BlobInfoCache
      → BlobDigest K
      → Exec (K.World) (Unit {0})
  unfolding or_closing fail_closing
  copy_blob ctx retry_opts raw_source dest cache bd = do
    (r, blob_size) ←
        N.retry_if_necessary (K.Reader × ℤ) ctx retry_opts
          (I.get_blob raw_source ctx bd.digest (negsuc 0) cache)
    λ w.
        or_closing (I.close_reader r)
          (I.put_blob dest ctx r bd.digest blob_size cache bd.is_config w)

  -- The loop over the blobs.
  unfoldable pub copy_blobs :
      Context
      → RetryOptions
      → K.ImageSource
      → K.ImageDestination
      → K.BlobInfoCache
      → List (BlobDigest K)
      → Exec (K.World) (Unit {0})
  copy_blobs ctx retry_opts raw_source dest cache [] = pure tt
  copy_blobs ctx retry_opts raw_source dest cache (bd ∷ bds) = do
    copy_blob ctx retry_opts raw_source dest cache bd
    copy_blobs ctx retry_opts raw_source dest cache bds

  -- The part of `run` that holds the destination.
  unfoldable pub fill_destination :
      Context
      → RetryOptions
      → K.ImageSource
      → K.Image
      → K.BlobInfoCache
      → List (BlobDigest K)
      → K.ImageDestination
      → Exec (K.World) (Unit {0})
  fill_destination ctx retry_opts raw_source src cache bds dest = do
    copy_blobs ctx retry_opts raw_source dest cache bds
    manifest ← N.retry_if_necessary Text ctx retry_opts (I.manifest src ctx)
    I.put_manifest dest ctx manifest
    I.commit dest ctx raw_source

  -- The part of `run` that holds the image.
  unfoldable pub extract :
      Context
      → RetryOptions
      → K.ImageSource
      → K.BlobInfoCache
      → List Text
      → K.Image
      → Exec (K.World) (Unit {0})
  extract ctx retry_opts raw_source cache names src = do
    bds ← lift (choose_blobs K D I R.parse_digest names src)
    tmp_dir ← I.temp_dir (lit ".") (lit "layers-")
    tmp_dir_ref ← lift (I.new_directory_reference tmp_dir)
    dest ← I.new_image_destination tmp_dir_ref ctx
    closing (I.close_destination dest) " (close error: %v)"
        (fill_destination ctx retry_opts raw_source src cache bds dest)

  module _ (P : Process K) where
    -- `run` on an image and the layers' digests.
    unfoldable pub layers_of : LayersOptions → Text → List Text → Exec (K.World) (Unit {0})
    unfolding or_closing
    layers_of opts image_name names = do
      reexec_if_necessary_for_images K P R (image_name ∷ [])
      let ctx = command_timeout_context opts.global
      sys ← lift (image_system_context K opts.image)
      let cache = I.default_cache sys
      raw_source ←
          N.retry_if_necessary (K.ImageSource) ctx opts.retry_opts
            (parse_image_source K R I ctx opts.image image_name)
      src ← (λ w.
          or_closing (I.close_source raw_source) (
            N.retry_if_necessary (K.Image) ctx opts.retry_opts (I.from_source ctx sys raw_source)
              w))
      closing (I.close_image src) " (close error: %v)"
          (extract ctx opts.retry_opts raw_source cache names src)

    abbrev pub notice : Text
    notice = lit "DEPRECATED: skopeo layers is deprecated in favor of skopeo copy"

    unfoldable pub run : LayersOptions → List Text → Exec (K.World) (Unit {0})
    unfolding layers_of
    run opts [] w =
        (err (errorf "Usage: layers imageReference [layer...]" []), P.print_stderr notice w)
    run opts (image_name ∷ names) w = layers_of opts image_name names (P.print_stderr notice w)
