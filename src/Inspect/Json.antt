-- ===== src/Inspect/Json.antt =====
-- A run of `skopeo inspect` that shows the image as JSON.
use skopeo.Prelude.{◌≡◌, ◌↔◌, refl, sym, ap, ◌∙◌, true, false, not, ◌&&◌, ◌||◌, [], ◌∷◌, ◌++◌}
use skopeo.Prelude.Texts.{Text, is_blank}
use skopeo.Go.{Result, ok, errorf, reject_if, wrapped, Exec, or_wrap}
use skopeo.Go.Close.{closing_iff}
use skopeo.Go.Laws.{
  then_ok, then_lift, or_wrap_of_ok, step_ok, lift_ok, or_wrap-eq-ok, if_ok, then_false,
  reject_if_ok,
}
use skopeo.External.Context.{Kinds, SystemContext}
use skopeo.External.Contents.{Digests}
use skopeo.External.Images.{Images}
use skopeo.External.Inspection.{Formats, Inspection}
use skopeo.External.Libraries.{References, Host, Remote}
use skopeo.External.Process.{Process}
use skopeo.Options.{command_timeout_context, image_system_context}
use skopeo.Unshare.{reexec_if_necessary_for_images}
use skopeo.Inspect.{InspectOptions, Output, inspect_source, run}
use skopeo.Inspect.Laws.{open_source, retrieve_manifest}
use skopeo.Inspect.Shown.{Inspected}
use skopeo.Inspect.Parsed.{Rest, rest_of, of_rest}

module _ (K : Kinds) (F : Formats) (R : References K) (H : Host K) (N : Remote K) (D : Digests K)
    (I : Images K) (X : Inspection K F) (marshal_config : K.OciConfig → Result Text)
    (marshal_output : Output K F → Result Text)
    (execute_config : F.Template → K.OciConfig → Exec (K.World) (Unit {0}))
    (execute_output : F.Template → Output K F → Exec (K.World) (Unit {0})) (P : Process K)
    (opts : InspectOptions) (image_name : Text) where
  abbrev source_of : Exec (K.World) (K.ImageSource)
  source_of =
      open_source K F R H N D I X marshal_config marshal_output execute_config execute_output P opts
        image_name

  abbrev manifest_of : K.ImageSource → Exec (K.World) Text
  manifest_of =
      retrieve_manifest K F R H N D I X marshal_config marshal_output execute_config execute_output
        P opts image_name

  pub record JsonShown (w w' : K.World) : Type 0 where
    pub sys : SystemContext K
    pub src : K.ImageSource
    pub manifest : Text
    pub img : K.Image
    pub output : Output K F
    pub out : Text
    pub looked_at : K.World
    pub opened : K.World
    pub retrieved : K.World
    pub parsed : K.World
    pub told : K.World
    pub looks : reexec_if_necessary_for_images K P R (image_name ∷ []) w ≡ (ok tt, looked_at)
    pub reads : image_system_context K opts.image ≡ ok sys
    pub opens : source_of looked_at ≡ (ok src, opened)
    pub retrieves : manifest_of src opened ≡ (ok manifest, retrieved)
    pub parses :
        I.from_unparsed_image (command_timeout_context opts.global) sys src retrieved
        ≡ (ok img, parsed)
    pub inspects :
        Inspected K F R H N D I X marshal_config marshal_output execute_config execute_output opts
          manifest img output parsed told
    pub formats : marshal_output output ≡ ok out
    pub closes : (I.close_source src (H.write_stdout (out ++ b'\n' ∷ []) told).1).1 ≡ w'

  module _ (no_config : opts.config ≡ false)
      (json : F.is_json opts.format || is_blank opts.format ≡ true) where
    module _ (not_raw : opts.raw ≡ false) where
      run_through-JsonShown :
          (w w' : K.World)
          → run K F R H N D I X marshal_config marshal_output execute_config execute_output P opts
              (image_name ∷ [])
              w
            ≡ (ok tt, w')
          → JsonShown w w'
      unfolding run inspect_source Rest
      run_through-JsonShown w w' h =
          reject_if_ok (opts.raw && not (is_blank opts.format)) _ _ w h λ format h1.
            step_ok (reexec_if_necessary_for_images K P R (image_name ∷ []) w) _ h1
              λ done looked_at looks h2.
                lift_ok (image_system_context K opts.image) _ looked_at h2 λ sys reads h3.
                  step_ok
                    (or_wrap (λ e. wrapped e "Error parsing image name %q" (image_name ∷ []))
                      source_of looked_at)
                    _ h3
                    λ src opened opens h4.
                      let (shown, whole, closes) =
                        (closing_iff (I.close_source src) _ _ opened w').0 h4 in
                      step_ok
                        (or_wrap (λ e. wrapped e "Error retrieving manifest for image" [])
                          (manifest_of src) opened)
                        _ whole
                        λ manifest retrieved retrieves h5.
                          if_ok (opts.raw && not opts.config) _ _ retrieved h5
                            (λ p q. let absurd : true ≡ false = sym p ∙ (rw not_raw refl) in cc)
                            λ p h6.
                              let (
                                img, output, out, parsed, told, parses, inspects, formats, writes,
                              ) =
                                rest_of K F R H N D I X marshal_config marshal_output execute_config
                                  execute_output opts no_config json sys src manifest retrieved
                                  shown h6 in
                              record {
                                sys = sys;
                                src = src;
                                manifest = manifest;
                                img = img;
                                output = output;
                                out = out;
                                looked_at = looked_at;
                                opened = opened;
                                retrieved = retrieved;
                                parsed = parsed;
                                told = told;
                                looks = looks;
                                reads = reads;
                                opens = or_wrap-eq-ok _ source_of looked_at opens;
                                retrieves = or_wrap-eq-ok _ (manifest_of src) opened retrieves;
                                parses = parses;
                                inspects = inspects;
                                formats = formats;
                                closes =
                                    ap (λ (v : K.World). (I.close_source src v).1) writes ∙ closes;
                              }

      run_of_JsonShown :
          (w w' : K.World)
          → JsonShown w w'
          → run K F R H N D I X marshal_config marshal_output execute_config execute_output P opts
              (image_name ∷ [])
              w
            ≡ (ok tt, w')
      unfolding run inspect_source Rest
      run_of_JsonShown w w' s =
          let no_reject : (opts.raw && not (is_blank opts.format)) ≡ false = rw not_raw refl in
          let no_raw : (opts.raw && not opts.config) ≡ false = rw not_raw refl in
          then_ok (reject_if (opts.raw && not (is_blank opts.format)) _ w) _
            (ap (λ b. reject_if b (errorf "raw output does not support format option" []) w)
              no_reject)
            (then_ok (reexec_if_necessary_for_images K P R (image_name ∷ []) w) _ s.looks (
              then_lift (image_system_context K opts.image) _ s.looked_at s.reads (
                then_ok _ _ (or_wrap_of_ok _ source_of s.looked_at s.opens) (
                  (closing_iff (I.close_source s.src) _ _ s.opened w').1 (
                    (H.write_stdout (s.out ++ b'\n' ∷ []) s.told).1,
                    then_ok _ _ (or_wrap_of_ok _ (manifest_of s.src) s.opened s.retrieves) (
                        then_false (opts.raw && not opts.config) _ _ s.retrieved no_raw (
                          of_rest K F R H N D I X marshal_config marshal_output execute_config
                            execute_output opts no_config json s.sys s.src s.manifest s.retrieved _
                            (
                              s.img, s.output, s.out, s.parsed, s.told, s.parses, s.inspects,
                              s.formats, refl,
                            ))),
                    s.closes,
                  )))))

      -- A run of `skopeo inspect` on one image, with no `--raw` and no `--config`, and with no format
      -- but that of JSON, succeeds exactly when the options of the image are accepted, it opens the
      -- source, retrieves the manifest, parses it, inspects the image, whose digest is that of the
      -- manifest and whose tags are those that its registry lists, if it does not refuse to, or none
      -- where no registry serves it, and makes JSON of that. It has written that to the output, and
      -- called the close of the source after it, whether these succeed or not.
      pub run-JsonShown :
          (w w' : K.World)
          → (run K F R H N D I X marshal_config marshal_output execute_config execute_output P opts
                (image_name ∷ [])
                w
              ≡ (ok tt, w'))
            ↔ JsonShown w w'
      run-JsonShown w w' = (run_through-JsonShown w w', run_of_JsonShown w w')
