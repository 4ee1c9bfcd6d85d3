-- ===== src/Inspect/Shown.antt =====
-- What `skopeo inspect` shows without `--raw` and `--config`.
use skopeo.Prelude.{◌≡◌, refl, ap, Bool-cases, inl, inr, arith, true, Option, none, some, List, []}
use skopeo.Prelude.Texts.{Text}
use skopeo.Go.{Foreign, Result, ok, Exec, lift}
use skopeo.Go.Laws.{
  pure-eq-ok, then_ok, then_lift, or_wrap_of_ok, step_ok, lift_ok, or_wrap-lift_ok,
}
use skopeo.External.Context.{Kinds, SystemContext, Context}
use skopeo.External.Contents.{Digests}
use skopeo.External.Images.{Images}
use skopeo.External.Inspection.{Formats, ImageInspectInfo, Inspection}
use skopeo.External.Libraries.{References, Host, Remote, Transport, docker, directory, other}
use skopeo.Options.{ImageOptions, command_timeout_context, image_system_context}
use skopeo.Inspect.{
  InspectOptions, Output, is_refusal, refusal, tags_or_refusal, list_tags, repo_tags_of, output_of,
  name_of, inspect_output,
}

module _ (K : Kinds) (F : Formats) (R : References K) (H : Host K) (N : Remote K) where
  -- The tags that are taken from a registry's answer: those that came with no error, and those that
  -- came with a refusal, with a warning then.
  pub data Accepted : (List Text × Option Foreign) × K.World → List Text → K.World → Type 0 where
    listed : {tags : List Text} {w : K.World} → Accepted ((tags, none), w) tags w
    refused :
        {tags : List Text} {w : K.World} (e : Foreign)
        → is_refusal e ≡ true
        → Accepted ((tags, some e), w) tags (H.warn (refusal K F R H N) w)

  tags-Accepted :
      (answer : (List Text × Option Foreign) × K.World) {tags : List Text} {w' : K.World}
      → tags_or_refusal K F R H N answer ≡ (ok tags, w')
      → Accepted answer tags w'
  unfolding tags_or_refusal
  tags-Accepted ((found, none), v) {tags} {w'} h =
      let p : found ≡ tags = cc in let q : v ≡ w' = cc in rw (← p, ← q) listed
  tags-Accepted ((found, some e), v) {tags} {w'} h = elim (Bool-cases (is_refusal e)) [
    | inl yes_refused ↦
        let p : found ≡ tags = ground arith in
        let q : H.warn (refusal K F R H N) v ≡ w' = ground arith in
        rw (← p, ← q) (refused e yes_refused)
    | inr no_refusal ↦ ground arith
  ]

  tags_of_Accepted :
      (answer : (List Text × Option Foreign) × K.World) {tags : List Text} {w' : K.World}
      → Accepted answer tags w'
      → tags_or_refusal K F R H N answer ≡ (ok tags, w')
  unfolding tags_or_refusal
  tags_of_Accepted ((found, none), v) listed = refl
  tags_of_Accepted ((found, some e), v) (refused e' p) = rw p refl

  module _ (ctx : Context) (image : ImageOptions) (ref : K.ImageReference) where
    -- The tags that are told of an image: those of its registry, and none of another transport.
    pub data TagsTold (w : K.World) : Transport → List Text → K.World → Type 0 where
      of_directory : TagsTold w directory [] w
      of_other : {name : Text} → TagsTold w (other name) [] w
      of_registry :
          {tags : List Text} {w' : K.World} (sys : SystemContext K)
          → image_system_context K image ≡ ok sys
          → Accepted (N.get_repository_tags ctx sys ref w) tags w'
          → TagsTold w docker tags w'

    repo_tags-TagsTold :
        (transport : Transport) (w : K.World) {tags : List Text} {w' : K.World}
        → repo_tags_of K F R H N ctx image ref transport w ≡ (ok tags, w')
        → TagsTold w transport tags w'
    unfolding repo_tags_of list_tags
    repo_tags-TagsTold docker w h =
        lift_ok (image_system_context K image) _ w h λ sys reads answers.
          of_registry sys reads (tags-Accepted (N.get_repository_tags ctx sys ref w) answers)
    repo_tags-TagsTold directory w {tags} {w'} h =
        let p : tags ≡ [] = cc in let q : w' ≡ w = cc in rw (p, q) of_directory
    repo_tags-TagsTold (other name) w {tags} {w'} h =
        let p : tags ≡ [] = cc in let q : w' ≡ w = cc in rw (p, q) of_other

    told-repo_tags :
        (transport : Transport) (w : K.World) {tags : List Text} {w' : K.World}
        → TagsTold w transport tags w'
        → repo_tags_of K F R H N ctx image ref transport w ≡ (ok tags, w')
    unfolding repo_tags_of list_tags
    told-repo_tags docker w (of_registry sys reads accepts) =
        then_lift (image_system_context K image) _ w reads
          (tags_of_Accepted (N.get_repository_tags ctx sys ref w) accepts)
    told-repo_tags directory w of_directory = refl
    told-repo_tags (other name) w of_other = refl

  module _ (D : Digests K) (I : Images K) (X : Inspection K F)
      (marshal_config : K.OciConfig → Result Text) (marshal_output : Output K F → Result Text)
      (execute_config : F.Template → K.OciConfig → Exec (K.World) (Unit {0}))
      (execute_output : F.Template → Output K F → Exec (K.World) (Unit {0}))
      (opts : InspectOptions) where
    -- What the image with a manifest is told to be.
    pub record Inspected (raw_manifest : Text) (img : K.Image) (output : Output K F)
        (w w' : K.World) : Type 0 where
      pub info : ImageInspectInfo F
      pub digest : K.Digest
      pub repo_tags : List Text
      pub inspected : K.World
      pub inspects :
          N.retry_if_necessary
            (ImageInspectInfo F)
            (command_timeout_context opts.global)
            opts.retry_opts
            (X.inspect img (command_timeout_context opts.global))
            w
          ≡ (ok info, inspected)
      pub digests : D.digest raw_manifest ≡ ok digest
      pub tells :
          TagsTold
            (command_timeout_context opts.global)
            opts.image
            (X.reference img)
            inspected
            (R.transport (X.reference img))
            repo_tags
            w'
      pub is_output :
          output_of K F R H N info
            (name_of K F R H N (R.docker_reference (X.reference img)))
            digest
            repo_tags
          ≡ output

    pub output-Inspected :
        (raw_manifest : Text) (img : K.Image) {output : Output K F} (w : K.World) {w' : K.World}
        → inspect_output K F R H N D I X marshal_config marshal_output execute_config execute_output
            (command_timeout_context opts.global)
            opts
            raw_manifest
            img
            w
          ≡ (ok output, w')
        → Inspected raw_manifest img output w w'
    unfolding inspect_output
    output-Inspected raw_manifest img {output} w {w'} h =
        step_ok
          (N.retry_if_necessary (ImageInspectInfo F) (command_timeout_context opts.global)
            opts.retry_opts (X.inspect img (command_timeout_context opts.global)) w)
          _ h
          λ info inspected inspects h1.
            or_wrap-lift_ok _ (D.digest raw_manifest) _ inspected h1 λ digest digests h2.
              step_ok
                (repo_tags_of K F R H N (command_timeout_context opts.global) opts.image
                  (X.reference img) (R.transport (X.reference img)) inspected)
                _ h2
                λ repo_tags v tells made.
                  let (same, still) = pure-eq-ok made in
                  record {
                    info = info;
                    digest = digest;
                    repo_tags = repo_tags;
                    inspected = inspected;
                    inspects = inspects;
                    digests = digests;
                    tells = rw (← still) (
                        repo_tags-TagsTold (command_timeout_context opts.global) opts.image
                          (X.reference img) (R.transport (X.reference img)) inspected tells);
                    is_output = same;
                  }

    pub output_of_Inspected :
        (raw_manifest : Text) (img : K.Image) {output : Output K F} (w : K.World) {w' : K.World}
        → Inspected raw_manifest img output w w'
        → inspect_output K F R H N D I X marshal_config marshal_output execute_config execute_output
            (command_timeout_context opts.global)
            opts
            raw_manifest
            img
            w
          ≡ (ok output, w')
    unfolding inspect_output
    output_of_Inspected raw_manifest img w {w'} i =
        let ctx = command_timeout_context opts.global in
        let ref = X.reference img in
        then_ok
          (N.retry_if_necessary (ImageInspectInfo F) ctx opts.retry_opts (X.inspect img ctx) w) _
          i.inspects
          (then_ok _ _
            (or_wrap_of_ok _ (lift (D.digest raw_manifest)) i.inspected
              (ap (λ r. (r, i.inspected)) i.digests))
            (then_ok (repo_tags_of K F R H N ctx opts.image ref (R.transport ref) i.inspected) _
              (told-repo_tags ctx opts.image ref (R.transport ref) i.inspected i.tells)
              (ap (λ (o : Output K F). (ok o, w')) i.is_output)))
