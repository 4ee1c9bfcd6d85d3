-- ===== src/Tests/InspectTests.antt =====
-- A run of `skopeo inspect --raw`.
use skopeo.Prelude.{◌≡◌, refl, true, false, List, [], ◌∷◌}
use skopeo.Prelude.Int.{pos}
use skopeo.Prelude.Texts.{Text, lit, ◌==◌, cut, split_n2, has_prefix}
use skopeo.Go.{ok, Result, Exec}
use skopeo.Go.Close.{closing, after_close}
use skopeo.External.Inspection.{Formats, Inspection}
use skopeo.ImageSource.{parse_image_source}
use skopeo.Options.{image_system_context}
use skopeo.Options.Creds.{get_docker_auth, parse_creds}
use skopeo.Unshare.{reexec_if_necessary_for_images}
use skopeo.Inspect.{InspectOptions, Output, inspect_output, show, repo_tags_of, inspect_source, run}
use skopeo.Inspect.Laws.{RawShown, run-RawShown}
use skopeo.Inspect.Json.{JsonShown, run-JsonShown}
use skopeo.Tests.OptionTests.{global, image}
use skopeo.Tests.CommandTests.{process, digests}
use skopeo.Tests.LayerTests.{images}
use skopeo.Tests.World.{
  kinds, references, host, remote, at_registry, name_of, path_of, transport_of, named_of,
}

abbrev formats : Formats
formats = record {
  Time = Text;
  Labels = List Text;
  Template = Text;
  is_json = λ s. s == lit "json";
  normalize_format = λ s. s;
  parse_template = λ s. ok s;
}

abbrev inspection : Inspection kinds formats
inspection = record {
  config_blob = λ img ctx w. (ok (lit "blob"), w);
  oci_config = λ img ctx w. (ok (lit "config"), w);
  inspect = λ img ctx w. (
    ok (record {
      tag = lit "1";
      created = [];
      docker_version = [];
      labels = [];
      architecture = lit "amd64";
      os = lit "linux";
      layers = [];
      env = [];
    }),
    w,
  );
  reference = λ img. at_registry img;
}

abbrev opts : InspectOptions
opts = record {
  global = global;
  image = image;
  retry_opts = record { max_retry = pos 0 };
  format = [];
  raw = true;
  config = false;
}

abbrev json_of : Text → Result Text
json_of s = ok s

abbrev json_of_output : Output kinds formats → Result Text
json_of_output output = ok output.name

abbrev execute : Text → Text → Exec (List Text) (Unit {0})
execute template s w = (ok tt, s ∷ w)

abbrev execute_output : Text → Output kinds formats → Exec (List Text) (Unit {0})
execute_output template output w = (ok tt, output.name ∷ w)

inspect_run :
    run kinds formats references host remote digests images inspection json_of json_of_output
      execute execute_output process opts
      (lit "docker://box" ∷ [])
      []
    ≡ (ok tt, lit "source closed" ∷ lit "manifest" ∷ [])
unfolding run inspect_source closing after_close parse_image_source image_system_context
    get_docker_auth parse_creds split_n2 cut reexec_if_necessary_for_images ◌==◌ lit has_prefix
    name_of path_of
inspect_run = refl

run-RawShown_example :
    RawShown kinds formats references host remote digests images inspection json_of json_of_output
      execute execute_output process opts
      (lit "docker://box")
      []
      (lit "source closed" ∷ lit "manifest" ∷ [])
run-RawShown_example =
    (run-RawShown kinds formats references host remote digests images inspection json_of
        json_of_output execute execute_output process opts (lit "docker://box") refl refl []
        (lit "source closed" ∷ lit "manifest" ∷ [])).0
      inspect_run

abbrev json_opts : InspectOptions
json_opts = record opts { raw = false }

json_run :
    run kinds formats references host remote digests images inspection json_of json_of_output
      execute execute_output process json_opts
      (lit "docker://box" ∷ [])
      []
    ≡ (ok tt, lit "source closed" ∷ lit "docker\n" ∷ [])
unfolding run inspect_source closing after_close parse_image_source image_system_context
    get_docker_auth parse_creds split_n2 cut reexec_if_necessary_for_images ◌==◌ lit has_prefix
    name_of path_of inspect_output show repo_tags_of transport_of named_of
json_run = refl

run-JsonShown_example :
    JsonShown kinds formats references host remote digests images inspection json_of json_of_output
      execute execute_output process json_opts
      (lit "docker://box")
      []
      (lit "source closed" ∷ lit "docker\n" ∷ [])
unfolding ◌==◌ lit
run-JsonShown_example =
    (run-JsonShown kinds formats references host remote digests images inspection json_of
        json_of_output execute execute_output process json_opts (lit "docker://box") refl refl refl
        [] (lit "source closed" ∷ lit "docker\n" ∷ [])).0
      json_run
