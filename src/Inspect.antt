-- ===== src/Inspect.antt =====
-- cmd/skopeo/inspect.go and cmd/skopeo/inspect/output.go
pub mod Laws
pub mod Shown
pub mod Parsed
pub mod Json
use skopeo.Prelude.{
  Bool, true, false, not, ◌&&◌, ◌||◌, Option, none, some, List, [], ◌∷◌, ◌++◌, if◌then◌else◌,
}
use skopeo.Prelude.Texts.{Text, lit, contains, is_blank}
use skopeo.Go.{
  GoError, Foreign, Result, ok, err, errorf, errorf_of, wrapped, foreign, Exec, continue, ◌>>=◌,
  ◌>>◌, pure, fail, lift, or_wrap, reject_if,
}
use skopeo.Go.Close.{closing}
use skopeo.External.Context.{Kinds, SystemContext, Context}
use skopeo.External.Contents.{Digests}
use skopeo.External.Images.{Images}
use skopeo.External.Inspection.{Formats, ImageInspectInfo, Inspection}
use skopeo.External.Libraries.{References, Host, Remote, Transport, docker, directory, other}
use skopeo.External.Process.{Process}
use skopeo.ImageSource.{parse_image_source}
use skopeo.Options.{
  GlobalOptions, ImageOptions, RetryOptions, command_timeout_context, image_system_context,
}
use skopeo.Unshare.{reexec_if_necessary_for_images}

pub record InspectOptions : Type 0 where
  pub global : GlobalOptions
  pub image : ImageOptions
  pub retry_opts : RetryOptions
  pub format : Text
  pub raw : Bool
  pub config : Bool

-- `inspect.Output`
pub record Output (K : Kinds) (F : Formats) : Type 0 where
  pub name : Text
  pub tag : Text
  pub digest : K.Digest
  pub repo_tags : List Text
  pub created : F.Time
  pub docker_version : Text
  pub labels : F.Labels
  pub architecture : Text
  pub os : Text
  pub layers : List Text
  pub env : List Text

-- A registry that refuses to list tags, as the text of its error says.
unfoldable pub is_refusal : Foreign → Bool
unfolding contains
is_refusal e =
    contains e.message (b'4' ∷ b'0' ∷ b'1' ∷ []) || contains e.message (b'4' ∷ b'0' ∷ b'3' ∷ [])

module _ (K : Kinds) (F : Formats) (R : References K) (H : Host K) (N : Remote K) where
  -- `printTmpl` of a row and one value. `execute` is `t.Execute` to a writer on `os.Stdout`.
  unfoldable pub print_tmpl :
      {A : Type 0}
      → (F.Template → A → Exec (K.World) (Unit {0}))
      → Text
      → A
      → Exec (K.World) (Unit {0})
  print_tmpl execute row value = do t ← lift (F.parse_template row); execute t value

  abbrev row_of : Text → Text
  row_of format = lit "{{range . }}" ++ F.normalize_format format ++ lit "{{end}}"

  -- What the error of `fmt.Fprintf` is, is not looked at.
  print_json : Text → Exec (K.World) (Unit {0})
  print_json out w = let (r, w') = H.write_stdout (out ++ b'\n' ∷ []) w in (ok tt, w')

  -- A value as JSON, or in the format of the template.
  unfoldable pub show :
      {A : Type 0}
      → (A → Result Text)
      → (F.Template → A → Exec (K.World) (Unit {0}))
      → Text
      → A
      → Exec (K.World) (Unit {0})
  unfolding print_json print_tmpl
  show marshal_indent execute format value =
      if F.is_json format || is_blank format
      then (do out ← lift (marshal_indent value); print_json out)
      else print_tmpl execute (row_of format) value

  abbrev pub refusal : Text
  refusal = lit "Registry disallows tag list retrieval; skipping"

  tags_or_refusal : (List Text × Option Foreign) × K.World → Result (List Text) × K.World
  tags_or_refusal ((tags, none), w) = (ok tags, w)
  tags_or_refusal ((tags, some e), w) =
      if not (is_refusal e)
      then (err (wrapped (foreign e) "Error determining repository tags" []), w)
      else (ok tags, H.warn refusal w)

  list_tags : Context → SystemContext K → K.ImageReference → Exec (K.World) (List Text)
  list_tags ctx sys ref w = tags_or_refusal (N.get_repository_tags ctx sys ref w)

  -- The tags of an image's repository, if a registry serves it.
  unfoldable pub repo_tags_of :
      Context → ImageOptions → K.ImageReference → Transport → Exec (K.World) (List Text)
  unfolding tags_or_refusal list_tags
  repo_tags_of ctx image ref docker = do
    sys ← lift (image_system_context K image)
    list_tags ctx sys ref
  repo_tags_of ctx image ref directory = pure []
  repo_tags_of ctx image ref (other name) = pure []

  abbrev pub name_of : Option (K.Named) → Text
  name_of none = []
  name_of (some named) = R.name named

  abbrev pub output_of : ImageInspectInfo F → Text → K.Digest → List Text → Output K F
  output_of info name digest repo_tags = record {
    name = name;
    tag = info.tag;
    digest = digest;
    repo_tags = repo_tags;
    created = info.created;
    docker_version = info.docker_version;
    labels = info.labels;
    architecture = info.architecture;
    os = info.os;
    layers = info.layers;
    env = info.env;
  }

  module _ (D : Digests K) (I : Images K) (X : Inspection K F)
      (marshal_config : K.OciConfig → Result Text) (marshal_output : Output K F → Result Text)
      (execute_config : F.Template → K.OciConfig → Exec (K.World) (Unit {0}))
      (execute_output : F.Template → Output K F → Exec (K.World) (Unit {0})) where
    unfoldable pub inspect_output :
        Context → InspectOptions → Text → K.Image → Exec (K.World) (Output K F)
    inspect_output ctx opts raw_manifest img = do
      info ← N.retry_if_necessary (ImageInspectInfo F) ctx opts.retry_opts (X.inspect img ctx)
      digest ←
          or_wrap (λ e. wrapped e "Error computing manifest digest" [])
            (lift (D.digest raw_manifest))
      repo_tags ← repo_tags_of ctx opts.image (X.reference img) (R.transport (X.reference img))
      pure (output_of info (name_of (R.docker_reference (X.reference img))) digest repo_tags)

    -- `--config`, with `--raw` or without it
    unfoldable pub show_config : Context → InspectOptions → K.Image → Exec (K.World) (Unit {0})
    unfolding show
    show_config ctx opts img =
        if opts.raw
        then (do
          config_blob ←
              or_wrap (λ e. wrapped e "Error reading configuration blob" [])
                (N.retry_if_necessary Text ctx opts.retry_opts (X.config_blob img ctx))
          or_wrap (λ e. wrapped e "Error writing configuration blob to standard output" [])
              (H.write_stdout config_blob))
        else (do
          config ←
              or_wrap (λ e. wrapped e "Error reading OCI-formatted configuration data" [])
                (N.retry_if_necessary (K.OciConfig) ctx opts.retry_opts (X.oci_config img ctx))
          or_wrap
              (λ e.
                wrapped e "Error writing OCI-formatted configuration data to standard output" [])
              (show marshal_config execute_config opts.format config))

    pub parse_and_show :
        Context
        → InspectOptions
        → SystemContext K
        → Text
        → K.ImageSource
        → Exec (K.World) (Unit {0})
    parse_and_show ctx opts sys raw_manifest src = do
      img ←
          or_wrap (λ e. wrapped e "Error parsing manifest for image" [])
            (I.from_unparsed_image ctx sys src)
      (if opts.config then show_config ctx opts img else (do
        output ← inspect_output ctx opts raw_manifest img
        show marshal_output execute_output opts.format output))

    -- The part of `run` that holds the source.
    unfoldable pub inspect_source :
        Context → InspectOptions → SystemContext K → K.ImageSource → Exec (K.World) (Unit {0})
    unfolding parse_and_show
    inspect_source ctx opts sys src = do
      raw_manifest ←
          or_wrap (λ e. wrapped e "Error retrieving manifest for image" [])
            (N.retry_if_necessary Text ctx opts.retry_opts (I.get_manifest src ctx))
      (if opts.raw && not opts.config
          then or_wrap (errorf_of "Error writing manifest to standard output: %v" [])
              (H.write_stdout raw_manifest)
          else parse_and_show ctx opts sys raw_manifest src)

    module _ (P : Process K) where
      unfoldable pub run : InspectOptions → List Text → Exec (K.World) (Unit {0})
      run opts (image_name ∷ []) = do
        reject_if (opts.raw && not (is_blank opts.format))
            (errorf "raw output does not support format option" [])
        reexec_if_necessary_for_images K P R (image_name ∷ [])
        let ctx = command_timeout_context opts.global
        sys ← lift (image_system_context K opts.image)
        src ←
            or_wrap (λ e. wrapped e "Error parsing image name %q" (image_name ∷ []))
              (N.retry_if_necessary (K.ImageSource) ctx opts.retry_opts
                (parse_image_source K R I ctx opts.image image_name))
        closing (I.close_source src) "(could not close image: %v) "
            (inspect_source ctx opts sys src)
      run opts _ = fail (errorf "Exactly one argument expected" [])
