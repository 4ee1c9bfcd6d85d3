-- ===== src/External/Images.antt =====
-- Images and their blobs: types.ImageSource, types.ImageCloser, types.ImageDestination and
-- io.ReadCloser, and the functions that make them.
use skopeo.Prelude.{Bool, List}
use skopeo.Prelude.Int.{ℤ}
use skopeo.Prelude.Texts.{Text}
use skopeo.Go.{Result, Exec}
use skopeo.External.Context.{Kinds, SystemContext, Context}

pub record Images (K : Kinds) : Type 0 where
  -- `NewImageSource` and `NewImageDestination` of a reference
  pub new_image_source :
      K.ImageReference → Context → SystemContext K → Exec (K.World) (K.ImageSource)
  pub new_image_destination : K.ImageReference → Context → Exec (K.World) (K.ImageDestination)
  -- `image.FromSource` and `image.FromUnparsedImage`
  pub from_source : Context → SystemContext K → K.ImageSource → Exec (K.World) (K.Image)
  pub from_unparsed_image : Context → SystemContext K → K.ImageSource → Exec (K.World) (K.Image)
  pub close_source : K.ImageSource → Exec (K.World) (Unit {0})
  pub close_image : K.Image → Exec (K.World) (Unit {0})
  pub close_destination : K.ImageDestination → Exec (K.World) (Unit {0})
  pub close_reader : K.Reader → Exec (K.World) (Unit {0})
  pub get_manifest : K.ImageSource → Context → Exec (K.World) Text
  pub manifest : K.Image → Context → Exec (K.World) Text
  -- The digests of `LayerInfos()` and of `ConfigInfo()`
  pub layer_digests : K.Image → List (K.Digest)
  pub config_digest : K.Image → K.Digest
  -- `GetBlob` of a digest and a size
  pub get_blob :
      K.ImageSource → Context → K.Digest → ℤ → K.BlobInfoCache → Exec (K.World) (K.Reader × ℤ)
  -- `PutBlob` of a reader, with the digest, the size, and whether it is a configuration
  pub put_blob :
      K.ImageDestination
      → Context
      → K.Reader
      → K.Digest
      → ℤ
      → K.BlobInfoCache
      → Bool
      → Exec (K.World) (Unit {0})
  pub put_manifest : K.ImageDestination → Context → Text → Exec (K.World) (Unit {0})
  -- `Commit` with the unparsed image of a source
  pub commit : K.ImageDestination → Context → K.ImageSource → Exec (K.World) (Unit {0})
  -- `blobinfocache.DefaultCache`
  pub default_cache : SystemContext K → K.BlobInfoCache
  -- `directory.NewReference` and `ioutil.TempDir`
  pub new_directory_reference : Text → Result (K.ImageReference)
  pub temp_dir : Text → Text → Exec (K.World) Text
