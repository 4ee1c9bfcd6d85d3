-- ===== src/Sync/Source.antt =====
-- Listing the images of one repository: `parseRepositoryReference`, `getImageTags` and
-- `imagesToCopyFromRepo`.
use skopeo.Prelude.{not, Option, none, some, List, [], ◌∷◌}
use skopeo.Prelude.Texts.{Text}
use skopeo.Go.{
  Result, ok, err, errorf, wrapped, foreign, Foreign, plain, not_exist, unauthorized, Exec, ◌>>=◌,
  ◌>>◌, lift, pure, reject_if,
}
use skopeo.External.Context.{Kinds, SystemContext, Context, background}
use skopeo.External.Libraries.{References, Remote, docker}

module _ (K : Kinds) (R : References K) where
  unfoldable pub parse_repository_reference : Text → Exec (K.World) (K.Named)
  parse_repository_reference input = do
    ref ← lift (R.parse_normalized_named input)
    reject_if (not (R.is_name_only ref)) (errorf "input names a reference, not a repository" [])
    pure ref

  -- The loop over the tags.
  unfoldable pub refs_of_tags : K.Named → List Text → Result (List (K.ImageReference))
  refs_of_tags repo_ref [] = ok []
  refs_of_tags repo_ref (tag ∷ tags) = elim (R.with_tag repo_ref tag) [
    | err e ↦ err (
        wrapped e "Error creating a reference for repository %s and tag %q"
          (R.name repo_ref ∷ tag ∷ []))
    | ok tagged_ref ↦ elim (R.new_reference tagged_ref) [
      | err e ↦ err (
          wrapped e "Cannot obtain a valid image reference for transport %q and reference %s"
            (R.transport_name docker ∷ R.string tagged_ref ∷ []))
      | ok ref ↦ elim (refs_of_tags repo_ref tags) [ err e ↦ err e | ok refs ↦ ok (ref ∷ refs) ]
    ]
  ]

  module _ (N : Remote K) where
    -- The switch on the error that came with the tags.
    abbrev pub tags_or_error : K.Named → List Text × Option Foreign → Result (List Text)
    tags_or_error repo_ref (tags, none) = ok tags
    tags_or_error repo_ref (tags, some f) = elim f.kind [
      | unauthorized ↦ ok tags
      | plain ↦ err (
          wrapped (foreign f) "Error determining repository tags for image %s"
            (R.name repo_ref ∷ []))
      | not_exist ↦ err (
          wrapped (foreign f) "Error determining repository tags for image %s"
            (R.name repo_ref ∷ []))
    ]

    abbrev query_tags :
        Context → SystemContext K → K.Named → K.ImageReference → Exec (K.World) (List Text)
    query_tags ctx sys_ctx repo_ref docker_ref w =
        let (answer, w') = N.get_repository_tags ctx sys_ctx docker_ref w in
        (tags_or_error repo_ref answer, w')

    unfoldable pub get_image_tags : Context → SystemContext K → K.Named → Exec (K.World) (List Text)
    get_image_tags ctx sys_ctx repo_ref = do
      docker_ref ← lift (R.new_reference (R.tag_name_only repo_ref))
      query_tags ctx sys_ctx repo_ref docker_ref

    unfoldable pub images_to_copy_from_repo :
        SystemContext K → K.Named → Exec (K.World) (List (K.ImageReference))
    unfolding get_image_tags
    images_to_copy_from_repo sys repo_ref = do
      tags ← get_image_tags background sys repo_ref
      lift (refs_of_tags repo_ref tags)
