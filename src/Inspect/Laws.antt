-- ===== src/Inspect/Laws.antt =====
-- What `skopeo inspect --raw` has done when it succeeds, and the output of `skopeo inspect`.
use skopeo.Prelude.{◌≡◌, ◌↔◌, refl, sym, ◌∙◌, Bool, true, false, not, ◌&&◌, [], ◌∷◌}
use skopeo.Prelude.Texts.{Text, is_blank}
use skopeo.Go.{Result, ok, errorf_of, wrapped, Exec, or_wrap}
use skopeo.Go.Close.{closing_iff}
use skopeo.Go.Laws.{
  then_ok, then_lift, or_wrap_of_ok, step_ok, lift_ok, or_wrap-eq-ok, reject_if_ok, if_ok,
}
use skopeo.External.Context.{Kinds, SystemContext}
use skopeo.External.Contents.{Digests}
use skopeo.External.Images.{Images}
use skopeo.External.Inspection.{Formats, Inspection}
use skopeo.External.Libraries.{References, Host, Remote}
use skopeo.External.Process.{Process}
use skopeo.ImageSource.{parse_image_source}
use skopeo.Options.{command_timeout_context, image_system_context}
use skopeo.Unshare.{reexec_if_necessary_for_images}
use skopeo.Inspect.{InspectOptions, Output, inspect_source, run}

module _ (K : Kinds) (F : Formats) (R : References K) (H : Host K) (N : Remote K) (D : Digests K)
    (I : Images K) (X : Inspection K F) (marshal_config : K.OciConfig → Result Text)
    (marshal_output : Output K F → Result Text)
    (execute_config : F.Template → K.OciConfig → Exec (K.World) (Unit {0}))
    (execute_output : F.Template → Output K F → Exec (K.World) (Unit {0})) (P : Process K)
    (opts : InspectOptions) (image_name : Text) where
  abbrev pub open_source : Exec (K.World) (K.ImageSource)
  open_source =
      N.retry_if_necessary (K.ImageSource) (command_timeout_context opts.global) opts.retry_opts
        (parse_image_source K R I (command_timeout_context opts.global) opts.image image_name)

  abbrev pub retrieve_manifest : K.ImageSource → Exec (K.World) Text
  retrieve_manifest src =
      N.retry_if_necessary Text (command_timeout_context opts.global) opts.retry_opts
        (I.get_manifest src (command_timeout_context opts.global))

  pub record RawShown (w w' : K.World) : Type 0 where
    pub sys : SystemContext K
    pub src : K.ImageSource
    pub manifest : Text
    pub looked_at : K.World
    pub opened : K.World
    pub retrieved : K.World
    pub shown : K.World
    pub no_format : is_blank opts.format ≡ true
    pub looks : reexec_if_necessary_for_images K P R (image_name ∷ []) w ≡ (ok tt, looked_at)
    pub reads : image_system_context K opts.image ≡ ok sys
    pub opens : open_source looked_at ≡ (ok src, opened)
    pub retrieves : retrieve_manifest src opened ≡ (ok manifest, retrieved)
    pub shows : H.write_stdout manifest retrieved ≡ (ok tt, shown)
    pub closes : (I.close_source src shown).1 ≡ w'

  blank_of_raw : (raw blank : Bool) → raw ≡ true → (raw && not blank) ≡ false → blank ≡ true
  blank_of_raw true true p h = refl
  blank_of_raw true false p h = cc
  blank_of_raw false blank p h = cc

  run_through-RawShown :
      (raw : opts.raw ≡ true) (no_config : opts.config ≡ false) (w w' : K.World)
      → run K F R H N D I X marshal_config marshal_output execute_config execute_output P opts
          (image_name ∷ [])
          w
        ≡ (ok tt, w')
      → RawShown w w'
  unfolding run inspect_source
  run_through-RawShown raw no_config w w' h =
      reject_if_ok (opts.raw && not (is_blank opts.format)) _ _ w h λ format h1.
        step_ok (reexec_if_necessary_for_images K P R (image_name ∷ []) w) _ h1
          λ done looked_at looks h2.
            lift_ok (image_system_context K opts.image) _ looked_at h2 λ sys reads h3.
              step_ok
                (or_wrap (λ e. wrapped e "Error parsing image name %q" (image_name ∷ []))
                  open_source looked_at)
                _ h3
                λ src opened opens h4.
                  let (shown, whole, closes) =
                    (closing_iff (I.close_source src) _ _ opened w').0 h4 in
                  step_ok
                    (or_wrap (λ e. wrapped e "Error retrieving manifest for image" [])
                      (retrieve_manifest src) opened)
                    _ whole
                    λ manifest retrieved retrieves h5.
                      if_ok (opts.raw && not opts.config) _ _ retrieved h5
                        (λ p writes. record {
                          sys = sys;
                          src = src;
                          manifest = manifest;
                          looked_at = looked_at;
                          opened = opened;
                          retrieved = retrieved;
                          shown = shown;
                          no_format = blank_of_raw opts.raw (is_blank opts.format) raw format;
                          looks = looks;
                          reads = reads;
                          opens =
                              or_wrap-eq-ok
                                (λ e. wrapped e "Error parsing image name %q" (image_name ∷ []))
                                open_source looked_at opens;
                          retrieves =
                              or_wrap-eq-ok
                                (λ e. wrapped e "Error retrieving manifest for image" [])
                                (retrieve_manifest src) opened retrieves;
                          shows =
                              or_wrap-eq-ok
                                (errorf_of "Error writing manifest to standard output: %v" [])
                                (H.write_stdout manifest) retrieved writes;
                          closes = closes;
                        })
                        λ p q. let absurd : true ≡ false = sym (rw (raw, no_config) refl) ∙ p in cc

  run_of_RawShown :
      (raw : opts.raw ≡ true) (no_config : opts.config ≡ false) (w w' : K.World)
      → RawShown w w'
      → run K F R H N D I X marshal_config marshal_output execute_config execute_output P opts
          (image_name ∷ [])
          w
        ≡ (ok tt, w')
  unfolding run inspect_source
  run_of_RawShown raw no_config w w' s =
      rw (raw, s.no_format)
        (then_ok (reexec_if_necessary_for_images K P R (image_name ∷ []) w) _ s.looks (
          then_lift (image_system_context K opts.image) _ s.looked_at s.reads (
            then_ok _ _ (or_wrap_of_ok _ open_source s.looked_at s.opens) (
              (closing_iff (I.close_source s.src) _ _ s.opened w').1 (
                s.shown,
                then_ok _ _ (or_wrap_of_ok _ (retrieve_manifest s.src) s.opened s.retrieves) (
                    rw no_config (or_wrap_of_ok _ (H.write_stdout s.manifest) s.retrieved s.shows)),
                s.closes,
              )))))

  -- A run of `skopeo inspect --raw`, with no `--config`, succeeds exactly when it is given no format,
  -- the options of the image are accepted, it opens the image's source, retrieves the manifest, and
  -- writes to the output the manifest and nothing else; and the close of the source is called after
  -- that, whether it succeeds or not.
  pub run-RawShown :
      (raw : opts.raw ≡ true) (no_config : opts.config ≡ false) (w w' : K.World)
      → (run K F R H N D I X marshal_config marshal_output execute_config execute_output P opts
            (image_name ∷ [])
            w
          ≡ (ok tt, w'))
        ↔ RawShown w w'
  run-RawShown raw no_config w w' =
      (run_through-RawShown raw no_config w w', run_of_RawShown raw no_config w w')
