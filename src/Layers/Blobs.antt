-- ===== src/Layers/Blobs.antt =====
-- The blobs that `skopeo layers` extracts.
pub mod Laws
use skopeo.Prelude.{Bool, true, false, not, ◌||◌, List, [], ◌∷◌, ◌++◌, if◌then◌else◌}
use skopeo.Prelude.Lists.{is_empty}
use skopeo.Prelude.Texts.{Text, lit, ◌==◌, has_prefix, is_blank}
use skopeo.Go.{Result, ok, err}
use skopeo.External.Context.{Kinds}
use skopeo.External.Contents.{Digests}
use skopeo.External.Images.{Images}

pub record BlobDigest (K : Kinds) : Type 0 where
  pub digest : K.Digest
  pub is_config : Bool

-- `d` with the algorithm before it, if it has none.
unfoldable pub with_sha256 : Text → Text
unfolding lit
with_sha256 d_string =
    if not (has_prefix d_string (lit "sha256:")) then lit "sha256:" ++ d_string else d_string

module _ (K : Kinds) (D : Digests K) (I : Images K) (parse : Text → Result (K.Digest)) where
  -- The loop over the arguments; `parse` is `digest.Parse`.
  unfoldable pub named_blobs : List Text → Result (List (BlobDigest K))
  unfolding with_sha256
  named_blobs [] = ok []
  named_blobs (d_string ∷ d_strings) = elim (parse (with_sha256 d_string)) [
    | err e ↦ err e
    | ok d ↦ elim (named_blobs d_strings) [
      | err e ↦ err e
      | ok bds ↦ ok (record { digest = d; is_config = false } ∷ bds)
    ]
  ]

  -- Whether a digest, which is a string, is among the keys of `seenLayers`.
  unfoldable pub seen_in : Text → List Text → Bool
  seen_in s [] = false
  seen_in s (seen ∷ seens) = s == seen || seen_in s seens

  -- The loop over the layers, with the keys of `seenLayers`.
  unfoldable pub layer_blobs : List Text → List (K.Digest) → List (BlobDigest K)
  layer_blobs seen [] = []
  layer_blobs seen (d ∷ ds) =
      let skipped = layer_blobs seen ds in
      let taken = layer_blobs (D.string d ∷ seen) ds in
      if seen_in (D.string d) seen
      then skipped
      else record { digest = d; is_config = false } ∷ taken

  config_blobs : K.Digest → List (BlobDigest K)
  config_blobs d =
      if is_blank (D.string d) then [] else record { digest = d; is_config = true } ∷ []

  unfoldable pub all_blobs : K.Image → List (BlobDigest K)
  unfolding config_blobs
  all_blobs src = layer_blobs [] (I.layer_digests src) ++ config_blobs (I.config_digest src)

  unfoldable pub choose_blobs : List Text → K.Image → Result (List (BlobDigest K))
  choose_blobs names src = elim (named_blobs names) [
    | err e ↦ err e
    | ok bds ↦ ok (if is_empty bds then all_blobs src else bds)
  ]
