-- ===== src/ImageSource.antt =====
-- `parseImageSource` of cmd/skopeo/utils.go
use skopeo.Prelude.Texts.{Text}
use skopeo.Go.{Exec, ◌>>=◌, lift}
use skopeo.External.Context.{Kinds, Context}
use skopeo.External.Images.{Images}
use skopeo.External.Libraries.{References}
use skopeo.Options.{ImageOptions, image_system_context}

unfoldable pub parse_image_source :
    (K : Kinds)
    → References K
    → Images K
    → Context
    → ImageOptions
    → Text
    → Exec (K.World) (K.ImageSource)
parse_image_source K R I ctx opts name = do
  ref ← lift (R.parse_image_name name)
  sys ← lift (image_system_context K opts)
  I.new_image_source ref ctx sys
