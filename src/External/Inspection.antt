-- ===== src/External/Inspection.antt =====
-- What inspecting an image calls: types.Image, package report, encoding/json and text/template.
use skopeo.Prelude.{Bool, List}
use skopeo.Prelude.Texts.{Text}
use skopeo.Go.{Result, Exec}
use skopeo.External.Context.{Kinds, Context}

pub record Formats : Type 1 where
  -- time.Time, which may be nil, and a map of labels
  pub Time : Type 0
  pub Labels : Type 0
  pub Template : Type 0
  -- `report.IsJSON` and `report.NormalizeFormat`
  pub is_json : Text → Bool
  pub normalize_format : Text → Text
  -- `template.New("skopeo inspect").Parse`
  pub parse_template : Text → Result Template

-- types.ImageInspectInfo
pub record ImageInspectInfo (F : Formats) : Type 0 where
  pub tag : Text
  pub created : F.Time
  pub docker_version : Text
  pub labels : F.Labels
  pub architecture : Text
  pub os : Text
  pub layers : List Text
  pub env : List Text

pub record Inspection (K : Kinds) (F : Formats) : Type 0 where
  -- Methods of an image
  pub config_blob : K.Image → Context → Exec (K.World) Text
  pub oci_config : K.Image → Context → Exec (K.World) (K.OciConfig)
  pub inspect : K.Image → Context → Exec (K.World) (ImageInspectInfo F)
  pub reference : K.Image → K.ImageReference
