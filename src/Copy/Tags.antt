-- ===== src/Copy/Tags.antt =====
-- The additional tags of a copy.
use skopeo.Prelude.{◌≡◌, ◌∙◌, List, [], ◌∷◌, ◌++◌}
use mathlib.Core.List.{append_assoc, append-nil}
use skopeo.Prelude.Texts.{Text}
use skopeo.Go.{ok}
use skopeo.Go.Laws.{then_lift, lift_ok}
use skopeo.External.Context.{Kinds, SystemContext}
use skopeo.External.Libraries.{References}
use skopeo.Copy.{parse_additional_tag, add_tags}

module _ (K : Kinds) (R : References K) where
  -- The references of the additional tags, each of which has a tag.
  pub data Tagged : List Text → List (K.Named) → Type 0 where
    untagged : Tagged [] []
    tagged :
        {image : Text} {named : K.Named} {images : List Text} {nameds : List (K.Named)}
        → parse_additional_tag K R image ≡ ok named
        → Tagged images nameds
        → Tagged (image ∷ images) (named ∷ nameds)

  abbrev pub with_tags : SystemContext K → List (K.Named) → SystemContext K
  with_tags ctx nameds = record ctx {
    docker_archive_additional_tags = ctx.docker_archive_additional_tags ++ nameds;
  }

  pub add_tags-Tagged :
      (images : List Text) (ctx : SystemContext K) (w w' : K.World) {ctx' : SystemContext K}
      → add_tags K R images ctx w ≡ (ok ctx', w')
      → (nameds : List (K.Named)) × Tagged images nameds × (ctx' ≡ with_tags ctx nameds) × (w ≡ w')
  unfolding add_tags
  add_tags-Tagged [] ctx w w' {ctx'} h =
      let same : ctx' ≡ ctx = cc in
      ([], untagged, rw (append-nil ctx.docker_archive_additional_tags) same, cc)
  add_tags-Tagged (image ∷ images) ctx w w' h =
      lift_ok (parse_additional_tag K R image) _ w h λ named p h'.
        let (nameds, t, q, r) = add_tags-Tagged images _ w w' h' in
        (named ∷ nameds, tagged p t, q ∙ rw append_assoc, r)

  pub add_tags_of_Tagged :
      (ctx : SystemContext K) (w : K.World) {images : List Text} {nameds : List (K.Named)}
      → Tagged images nameds
      → add_tags K R images ctx w ≡ (ok (with_tags ctx nameds), w)
  unfolding add_tags
  add_tags_of_Tagged ctx w untagged = rw (append-nil ctx.docker_archive_additional_tags)
  add_tags_of_Tagged ctx w (tagged {image} {named} p t) =
      then_lift (parse_additional_tag K R image) _ w p
        (add_tags_of_Tagged (with_tags ctx (named ∷ [])) w t ∙ rw append_assoc)
