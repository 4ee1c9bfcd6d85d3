-- ===== src/Tests/LayerTests.antt =====
-- Runs of `skopeo layers`.
use skopeo.Prelude.{◌≡◌, refl, ◌↔◌, List, [], ◌∷◌}
use skopeo.Prelude.Int.{pos}
use skopeo.Prelude.Texts.{Text, lit, ◌==◌, cut, split_n2, has_prefix}
use skopeo.Go.{ok, err, errorf, Exec}
use skopeo.Go.Close.{closing, after_close, closing_iff}
use skopeo.External.Images.{Images}
use skopeo.ImageSource.{parse_image_source}
use skopeo.Options.{image_system_context}
use skopeo.Options.Creds.{get_docker_auth, parse_creds}
use skopeo.Unshare.{reexec_if_necessary_for_images}
use skopeo.Layers as Extraction
use skopeo.Layers.{LayersOptions, layers_of, copy_blob, copy_blobs, fill_destination, extract}
use skopeo.Layers.Blobs.{layer_blobs, seen_in, named_blobs, all_blobs, choose_blobs}
use skopeo.Layers.Blobs.Laws.{Distinct, occurs, listed, layer_blobs_lem}
use skopeo.Layers.Laws.{LayersRun, run-LayersRun}
use skopeo.Tests.OptionTests.{global, image}
use skopeo.Tests.CommandTests.{process, digests}
use skopeo.Tests.World.{kinds, references, remote, at_dir, name_of, path_of}

abbrev does : Text → Exec (List Text) (Unit {0})
does s w = (ok tt, s ∷ w)

-- Two of the three layers are the same. The image cannot be closed.
abbrev pub images : Images kinds
images = record {
  new_image_source = λ ref ctx sys w. (ok (path_of ref), w);
  new_image_destination = λ ref ctx w. (ok (path_of ref), w);
  from_source = λ ctx sys source w. (ok source, w);
  from_unparsed_image = λ ctx sys source w. (ok source, w);
  close_source = λ source. does (lit "source closed");
  close_image = λ src w. (err (errorf "busy" []), lit "image closed" ∷ w);
  close_destination = λ dest. does (lit "closed");
  close_reader = λ r. does (lit "reader closed");
  get_manifest = λ source ctx w. (ok (lit "manifest"), w);
  manifest = λ src ctx w. (ok (lit "manifest"), w);
  layer_digests = λ src. lit "sha256:1" ∷ lit "sha256:2" ∷ lit "sha256:1" ∷ [];
  config_digest = λ src. lit "sha256:c";
  get_blob = λ source ctx d size cache w. (ok (d, pos 7), w);
  put_blob = λ dest ctx r d size cache is_config. does d;
  put_manifest = λ dest ctx s. does s;
  commit = λ dest ctx source. does (lit "committed");
  default_cache = λ sys. [];
  new_directory_reference = λ s. ok (at_dir s);
  temp_dir = λ s prefix w. (ok prefix, w);
}

abbrev opts : LayersOptions
opts = record { global = global; image = image; retry_opts = record { max_retry = pos 0 } }

abbrev done : List Text
done =
    lit "image closed"
    ∷ lit "closed"
    ∷ lit "committed"
    ∷ lit "manifest"
    ∷ lit "sha256:c"
    ∷ lit "sha256:2"
    ∷ lit "sha256:1"
    ∷ []

-- Opens the code of a run.
code : Unit {0}
unfolding Extraction.run layers_of copy_blob copy_blobs fill_destination extract closing after_close
    parse_image_source image_system_context get_docker_auth parse_creds split_n2 cut
    reexec_if_necessary_for_images choose_blobs named_blobs all_blobs layer_blobs seen_in ◌==◌ lit
    has_prefix name_of path_of
code = tt

layers_run :
    Extraction.run kinds references remote digests images process opts (lit "docker://box" ∷ []) []
    ≡ (ok tt, done)
unfolding code
layers_run = refl

run-LayersRun_example :
    LayersRun kinds references remote digests images process opts (lit "docker://box") [] [] done
run-LayersRun_example =
    (run-LayersRun kinds references remote digests images process opts (lit "docker://box") [] []
        done).0
      layers_run

abbrev layers : List Text
layers = lit "sha256:1" ∷ lit "sha256:2" ∷ lit "sha256:1" ∷ []

layer_blobs_lem_example :
    Distinct kinds digests images
      (references.parse_digest)
      (layer_blobs kinds digests images (references.parse_digest) [] layers)
    × ((s : Text)
        → occurs kinds digests images
            (references.parse_digest)
            s
            (layer_blobs kinds digests images (references.parse_digest) [] layers)
          ≡ listed kinds digests images (references.parse_digest) s layers)
layer_blobs_lem_example = layer_blobs_lem kinds digests images (references.parse_digest) layers

closing_iff_example :
    (closing (images.close_image (lit "box")) " (close error: %v)" (does (lit "committed")) []
      ≡ (ok tt, lit "image closed" ∷ lit "committed" ∷ []))
    ↔ ((v : List Text) × (does (lit "committed") [] ≡ (ok tt, v))
        × ((images.close_image (lit "box") v).1 ≡ lit "image closed" ∷ lit "committed" ∷ []))
closing_iff_example =
    closing_iff (images.close_image (lit "box")) " (close error: %v)" (does (lit "committed")) []
      (lit "image closed" ∷ lit "committed" ∷ [])
