-- ===== src/Layers/Laws.antt =====
-- What a run of `skopeo layers` that succeeds has done.
use skopeo.Prelude.{◌≡◌, ◌↔◌, List, [], ◌∷◌}
use skopeo.Prelude.Texts.{Text}
use skopeo.Go.{ok}
use skopeo.Go.Close.{closing_iff}
use skopeo.Go.Laws.{step_ok, lift_ok, then_ok, then_lift}
use skopeo.External.Context.{Kinds, SystemContext}
use skopeo.External.Contents.{Digests}
use skopeo.External.Images.{Images}
use skopeo.External.Libraries.{References, Remote}
use skopeo.External.Process.{Process}
use skopeo.ImageSource.{parse_image_source}
use skopeo.Options.{command_timeout_context, image_system_context}
use skopeo.Unshare.{reexec_if_necessary_for_images}
use skopeo.Layers.Extract.{
  Extracted, extract-Extracted, extract_of_Extracted, or_closing-eq-ok, or_closing_of_ok,
}
use skopeo.Layers.{LayersOptions, or_closing, notice, layers_of, run}

module _ (K : Kinds) (R : References K) (N : Remote K) (D : Digests K) (I : Images K) where
  module _ (P : Process K) (opts : LayersOptions) (image_name : Text) (names : List Text) where
    pub record LayersRun (w w' : K.World) : Type 0 where
      pub sys : SystemContext K
      pub raw_source : K.ImageSource
      pub src : K.Image
      pub looked_at : K.World
      pub opened : K.World
      pub parsed : K.World
      pub extracted : K.World
      pub looks :
          reexec_if_necessary_for_images K P R
            (image_name ∷ [])
            (P.print_stderr (notice K R N D I P) w)
          ≡ (ok tt, looked_at)
      pub reads : image_system_context K opts.image ≡ ok sys
      pub opens :
          N.retry_if_necessary
            (K.ImageSource)
            (command_timeout_context opts.global)
            opts.retry_opts
            (parse_image_source K R I (command_timeout_context opts.global) opts.image image_name)
            looked_at
          ≡ (ok raw_source, opened)
      pub parses :
          N.retry_if_necessary
            (K.Image)
            (command_timeout_context opts.global)
            opts.retry_opts
            (I.from_source (command_timeout_context opts.global) sys raw_source)
            opened
          ≡ (ok src, parsed)
      pub extracts :
          Extracted K R N D I
            (command_timeout_context opts.global)
            opts.retry_opts
            raw_source
            (I.default_cache sys)
            names
            src
            parsed
            extracted
      pub closes : (I.close_image src extracted).1 ≡ w'

    run_through-LayersRun :
        (w w' : K.World)
        → run K R N D I P opts (image_name ∷ names) w ≡ (ok tt, w')
        → LayersRun w w'
    unfolding run layers_of
    run_through-LayersRun w w' h =
        step_ok
          (reexec_if_necessary_for_images K P R (image_name ∷ [])
            (P.print_stderr (notice K R N D I P) w))
          _ h
          λ done looked_at looks h1.
            lift_ok (image_system_context K opts.image) _ looked_at h1 λ sys reads h2.
              step_ok
                (N.retry_if_necessary (K.ImageSource) (command_timeout_context opts.global)
                  opts.retry_opts
                  (parse_image_source K R I (command_timeout_context opts.global) opts.image
                    image_name)
                  looked_at)
                _ h2
                λ raw_source opened opens h3.
                  step_ok
                    (or_closing K R N D I (I.close_source raw_source) (
                      N.retry_if_necessary (K.Image) (command_timeout_context opts.global)
                        opts.retry_opts
                        (I.from_source (command_timeout_context opts.global) sys raw_source)
                        opened))
                    _ h3
                    λ src parsed parses h4.
                      let (extracted, whole, closes) =
                        (closing_iff (I.close_image src) _ _ parsed w').0 h4 in
                      record {
                        sys = sys;
                        raw_source = raw_source;
                        src = src;
                        looked_at = looked_at;
                        opened = opened;
                        parsed = parsed;
                        extracted = extracted;
                        looks = looks;
                        reads = reads;
                        opens = opens;
                        parses = or_closing-eq-ok K R N D I (I.close_source raw_source) _ parses;
                        extracts =
                            extract-Extracted K R N D I _ opts.retry_opts raw_source
                              (I.default_cache sys) names src parsed extracted whole;
                        closes = closes;
                      }

    run_of_LayersRun :
        (w w' : K.World)
        → LayersRun w w'
        → run K R N D I P opts (image_name ∷ names) w ≡ (ok tt, w')
    unfolding run layers_of
    run_of_LayersRun w w' l =
        let ctx = command_timeout_context opts.global in
        then_ok
          (reexec_if_necessary_for_images K P R (image_name ∷ [])
            (P.print_stderr (notice K R N D I P) w))
          _ l.looks
          (then_lift (image_system_context K opts.image) _ l.looked_at l.reads (
            then_ok
              (N.retry_if_necessary (K.ImageSource) ctx opts.retry_opts
                (parse_image_source K R I ctx opts.image image_name) l.looked_at)
              _ l.opens
              (then_ok
                (or_closing K R N D I (I.close_source l.raw_source) (
                  N.retry_if_necessary (K.Image) ctx opts.retry_opts
                    (I.from_source ctx l.sys l.raw_source) l.opened))
                _ (or_closing_of_ok K R N D I (I.close_source l.raw_source) _ l.parses)
                ((closing_iff (I.close_image l.src) _ _ l.parsed w').1 (
                  l.extracted,
                  extract_of_Extracted K R N D I ctx opts.retry_opts l.raw_source
                      (I.default_cache l.sys) names l.src l.parsed l.extracted l.extracts,
                  l.closes,
                )))))

    -- A run of `skopeo layers` on an image succeeds exactly when it goes through all its stages: it
    -- prints the deprecation notice, opens the source and the image, chooses the blobs, reads each from
    -- the source and puts it into a new directory, in order, puts the image's manifest there and
    -- commits the directory; and the closes of the directory and of the image are called after that,
    -- whether they succeed or not.
    pub run-LayersRun :
        (w w' : K.World)
        → (run K R N D I P opts (image_name ∷ names) w ≡ (ok tt, w')) ↔ LayersRun w w'
    run-LayersRun w w' = (run_through-LayersRun w w', run_of_LayersRun w w')
