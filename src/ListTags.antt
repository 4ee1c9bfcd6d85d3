-- ===== src/ListTags.antt =====
-- cmd/skopeo/list_tags.go
pub mod Laws
pub mod Success
use skopeo.Prelude.{not, Option, none, some, List, [], ◌∷◌, ◌++◌, if◌then◌else◌}
use skopeo.Prelude.Texts.{Text, lit, ◌==◌, has_prefix, trim_prefix, split_n2}
use skopeo.Go.{
  GoError, Foreign, Result, ok, err, errorf, errorf_of, foreign, should_display_usage,
  nil_dereference, Exec, continue, ◌>>=◌, ◌>>◌, pure, fail, lift, reject_if,
}
use skopeo.External.Context.{Kinds, SystemContext, Context}
use skopeo.External.Libraries.{References, Host, Remote, Transport, docker}
use skopeo.Options.{
  GlobalOptions, ImageOptions, RetryOptions, command_timeout_context, image_system_context,
}

pub record TagListOutput : Type 0 where
  pub repository : Text
  pub tags : List Text

pub record TagsOptions : Type 0 where
  pub global : GlobalOptions
  pub image : ImageOptions
  pub retry_opts : RetryOptions

module _ (K : Kinds) (R : References K) where
  -- `docker.Transport.Name()+"://"`
  abbrev pub docker_prefix : Text
  docker_prefix = R.transport_name docker ++ b':' ∷ b'/' ∷ b'/' ∷ []

  named_reference : Result (K.Named) → Result (K.ImageReference)
  named_reference (err e) = err e
  named_reference (ok ref) =
      if not (R.is_name_only ref)
      then err (errorf "No tag or digest allowed in reference" [])
      else R.new_reference (R.tag_name_only ref)

  split_reference : Text → List Text → Result (K.ImageReference)
  unfolding named_reference
  split_reference ref_string (transport ∷ rest ∷ []) =
      named_reference (R.parse_normalized_named (trim_prefix rest (b'/' ∷ b'/' ∷ [])))
  split_reference ref_string _ = err (
      errorf "Invalid image name \"%s\", expected colon-separated transport:reference"
        (ref_string ∷ []))

  unfoldable pub parse_docker_repository_reference : Text → Result (K.ImageReference)
  unfolding split_reference
  parse_docker_repository_reference ref_string =
      if not (has_prefix ref_string docker_prefix)
      then err (
          errorf "docker: image reference %s does not start with %s://"
            (ref_string ∷ R.transport_name docker ∷ []))
      else split_reference ref_string (split_n2 ref_string b':')

  module _ (H : Host K) (N : Remote K) where
    tags_found : Text → (List Text × Option Foreign) × K.World → Result (Text × List Text) × K.World
    tags_found repository_name ((tags, some e), w) =
        (err (errorf_of "Error listing repository tags: %v" [] (foreign e)), w)
    tags_found repository_name ((tags, none), w) = (ok (repository_name, tags), w)

    unfoldable pub list_docker_tags :
        Context → SystemContext K → K.ImageReference → Exec (K.World) (Text × List Text)
    unfolding tags_found
    list_docker_tags ctx sys img_ref w = elim (R.docker_reference img_ref) [
      | none ↦ (err nil_dereference, w)
      | some named ↦ tags_found (R.name named) (N.get_repository_tags ctx sys img_ref w)
    ]

    -- The two tests of the transport.
    unfoldable pub check_transport : Text → Option Transport → Exec (K.World) (Unit {0})
    check_transport arg none = fail (errorf "Invalid %q: does not specify a transport" (arg ∷ []))
    check_transport arg (some transport) =
        reject_if (not (R.transport_name transport == R.transport_name docker)) (
          errorf "Unsupported transport '%v' for tag listing. Only '%v' currently supported"
            (R.transport_name transport ∷ R.transport_name docker ∷ []))

    -- `json.MarshalIndent` of the output is a parameter.
    module _ (marshal_indent : TagListOutput → Result Text) where
      unfoldable pub run : TagsOptions → List Text → Exec (K.World) (Unit {0})
      run opts (arg ∷ []) = do
        let ctx = command_timeout_context opts.global
        sys ← lift (image_system_context K opts.image)
        check_transport arg (R.transport_from_image_name arg)
        img_ref ← lift (parse_docker_repository_reference arg)
        listing ←
            N.retry_if_necessary (Text × List Text) ctx opts.retry_opts
              (list_docker_tags ctx sys img_ref)
        out ← lift (marshal_indent (record { repository = listing.0; tags = listing.1 }))
        H.write_stdout (out ++ b'\n' ∷ [])
      run opts _ =
          fail (should_display_usage (errorf "Exactly one non-option argument expected" []))
