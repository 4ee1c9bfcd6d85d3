-- ===== src/Inspect/Parsed.antt =====
-- What a run of `skopeo inspect` that shows the image as JSON does after the manifest was retrieved.
use skopeo.Prelude.{◌≡◌, sym, ap, ◌∙◌, true, false, ◌||◌, [], ◌∷◌, ◌++◌}
use skopeo.Prelude.Texts.{Text, is_blank}
use skopeo.Go.{Result, ok, wrapped, Exec, or_wrap}
use skopeo.Go.Laws.{
  pure-eq-ok, then_ok, then_lift, or_wrap_of_ok, step_ok, lift_ok, or_wrap-eq-ok, if_ok, then_true,
  then_false,
}
use skopeo.External.Context.{Kinds, SystemContext}
use skopeo.External.Contents.{Digests}
use skopeo.External.Images.{Images}
use skopeo.External.Inspection.{Formats, Inspection}
use skopeo.External.Libraries.{References, Host, Remote}
use skopeo.Options.{command_timeout_context}
use skopeo.Inspect.{InspectOptions, Output, print_json, show, parse_and_show, inspect_output}
use skopeo.Inspect.Shown.{Inspected, output-Inspected, output_of_Inspected}

module _ (K : Kinds) (F : Formats) (R : References K) (H : Host K) (N : Remote K) (D : Digests K)
    (I : Images K) (X : Inspection K F) (marshal_config : K.OciConfig → Result Text)
    (marshal_output : Output K F → Result Text)
    (execute_config : F.Template → K.OciConfig → Exec (K.World) (Unit {0}))
    (execute_output : F.Template → Output K F → Exec (K.World) (Unit {0}))
    (opts : InspectOptions) where
  -- The rest after the manifest was retrieved.
  unfoldable pub Rest : SystemContext K → K.ImageSource → Text → K.World → K.World → Type 0
  Rest sys src manifest retrieved v =
      (img : K.Image) × (output : Output K F) × (out : Text) × (parsed : K.World) × (told : K.World)
      × (I.from_unparsed_image (command_timeout_context opts.global) sys src retrieved
          ≡ (ok img, parsed))
      × Inspected K F R H N D I X marshal_config marshal_output execute_config execute_output opts
          manifest img output parsed told
      × (marshal_output output ≡ ok out)
      × ((H.write_stdout (out ++ b'\n' ∷ []) told).1 ≡ v)

  module _ (no_config : opts.config ≡ false)
      (json : F.is_json opts.format || is_blank opts.format ≡ true) where
    pub rest_of :
        (sys : SystemContext K) (src : K.ImageSource) (manifest : Text) (retrieved v : K.World)
        → parse_and_show K F R H N D I X marshal_config marshal_output execute_config execute_output
            (command_timeout_context opts.global)
            opts
            sys
            manifest
            src
            retrieved
          ≡ (ok tt, v)
        → Rest sys src manifest retrieved v
    unfolding parse_and_show show print_json Rest
    rest_of sys src manifest retrieved v h =
        let ctx = command_timeout_context opts.global in
        step_ok
          (or_wrap (λ e. wrapped e "Error parsing manifest for image" [])
            (I.from_unparsed_image ctx sys src) retrieved)
          _ h
          λ img parsed parses h1.
            if_ok opts.config _ _ parsed h1
              (λ p q. let absurd : true ≡ false = sym p ∙ no_config in cc)
              λ p h2.
                step_ok
                  (inspect_output K F R H N D I X marshal_config marshal_output execute_config
                    execute_output ctx opts manifest img parsed)
                  _ h2
                  λ output told inspects h3.
                    if_ok (F.is_json opts.format || is_blank opts.format) _ _ told h3
                      (λ q h4. lift_ok (marshal_output output) _ told h4 λ out formats writes. (
                        img,
                        output,
                        out,
                        parsed,
                        told,
                        or_wrap-eq-ok _ (I.from_unparsed_image ctx sys src) retrieved parses,
                        output-Inspected K F R H N D I X marshal_config marshal_output
                            execute_config execute_output opts manifest img parsed inspects,
                        formats,
                        (pure-eq-ok writes).1,
                      ))
                      λ q h4. let absurd : true ≡ false = sym json ∙ q in cc

    pub of_rest :
        (sys : SystemContext K) (src : K.ImageSource) (manifest : Text) (retrieved v : K.World)
        → Rest sys src manifest retrieved v
        → parse_and_show K F R H N D I X marshal_config marshal_output execute_config execute_output
            (command_timeout_context opts.global)
            opts
            sys
            manifest
            src
            retrieved
          ≡ (ok tt, v)
    unfolding parse_and_show show print_json Rest
    of_rest sys src manifest retrieved v
          (img, output, out, parsed, told, parses, inspects, formats, writes) =
        let ctx = command_timeout_context opts.global in
        then_ok _ _ (or_wrap_of_ok _ (I.from_unparsed_image ctx sys src) retrieved parses) (
          then_false opts.config _ _ parsed no_config (
            then_ok
              (inspect_output K F R H N D I X marshal_config marshal_output execute_config
                execute_output ctx opts manifest img parsed)
              _
              (output_of_Inspected K F R H N D I X marshal_config marshal_output execute_config
                execute_output opts manifest img parsed inspects)
              (then_true (F.is_json opts.format || is_blank opts.format) _ _ told json (
                then_lift (marshal_output output) _ told formats
                  (ap (λ (u : K.World). (ok tt, u)) writes)))))
