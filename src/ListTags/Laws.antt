-- ===== src/ListTags/Laws.antt =====
-- The names of repositories that list-tags accepts.
use skopeo.Prelude.{◌≡◌, refl, ◌∙◌, sym, ◌↔◌, inl, inr, true, Bool-cases, [], ◌∷◌, ◌++◌, arith}
use mathlib.Core.List.{append_assoc}
use skopeo.Prelude.Texts.{Text, lit, has_prefix, drop_prefix, split_n2}
use skopeo.Prelude.Texts.Laws.{
  Lacks, cut-append, has_prefix-append, trim_prefix-append, append-drop_prefix,
}
use skopeo.Go.{Result, ok, err}
use skopeo.External.Context.{Kinds}
use skopeo.External.Libraries.{References, docker}
use skopeo.External.Names.{IsNamed}
use skopeo.ListTags.{docker_prefix, named_reference, parse_docker_repository_reference}

docker-Lacks : Lacks b':' (lit "docker")
unfolding lit
docker-Lacks = (refl, (refl, (refl, (refl, (refl, (refl, tt))))))

module _ (K : Kinds) (R : References K) where
  named_reference-eq-ok :
      (r : Result (K.Named)) {ref : K.ImageReference}
      → named_reference K R r ≡ ok ref
      → (named : K.Named) × (r ≡ ok named)
        × (R.is_name_only named ≡ true)
        × (R.new_reference (R.tag_name_only named) ≡ ok ref)
  unfolding named_reference
  named_reference-eq-ok (err e) h = cc
  named_reference-eq-ok (ok named) h = elim (Bool-cases (R.is_name_only named)) [
    | inl p ↦ (named, refl, p, ground arith)
    | inr p ↦ ground arith
  ]

  parse_of_prefix :
      (names : IsNamed K R) (rest : Text)
      → parse_docker_repository_reference K R (docker_prefix K R ++ rest)
        ≡ named_reference K R (R.parse_normalized_named rest)
  unfolding parse_docker_repository_reference split_n2
  parse_of_prefix names rest =
      let prefixed = has_prefix-append (docker_prefix K R) rest in
      let split = append_assoc (R.transport_name docker) (b':' ∷ b'/' ∷ b'/' ∷ []) rest in
      let lacks : Lacks b':' (R.transport_name docker) = rw names.docker_name docker-Lacks in
      let parts = cut-append b':' (R.transport_name docker) (b'/' ∷ b'/' ∷ rest) lacks in
      rw (prefixed, split, parts, trim_prefix-append (b'/' ∷ b'/' ∷ []) rest)

  -- What a name of list-tags stands for: the text after `docker://` is the name of a repository, with
  -- no tag and no digest, and the reference is that of the name with the default tag.
  pub record NamesRepository (ref_string : Text) (ref : K.ImageReference) : Type 0 where
    pub rest : Text
    pub named : K.Named
    pub begins : ref_string ≡ docker_prefix K R ++ rest
    pub parses : R.parse_normalized_named rest ≡ ok named
    pub name_only : R.is_name_only named ≡ true
    pub refers : R.new_reference (R.tag_name_only named) ≡ ok ref

  named_of_prefixed :
      (names : IsNamed K R) (ref_string rest : Text) {ref : K.ImageReference}
      → ref_string ≡ docker_prefix K R ++ rest
      → parse_docker_repository_reference K R ref_string ≡ ok ref
      → NamesRepository ref_string ref
  named_of_prefixed names ref_string rest {ref} begins h =
      let reads : named_reference K R (R.parse_normalized_named rest) ≡ ok ref =
        sym (parse_of_prefix names rest) ∙ rw (← begins) h in
      let (named, parses, name_only, refers) =
        named_reference-eq-ok (R.parse_normalized_named rest) reads in
      record {
        rest = rest;
        named = named;
        begins = begins;
        parses = parses;
        name_only = name_only;
        refers = refers;
      }

  prefixed_of_parsed :
      (ref_string : Text) {ref : K.ImageReference}
      → parse_docker_repository_reference K R ref_string ≡ ok ref
      → has_prefix ref_string (docker_prefix K R) ≡ true
  unfolding parse_docker_repository_reference
  prefixed_of_parsed ref_string h = ground arith

  parsed_of_named :
      (names : IsNamed K R) (ref_string : Text) (ref : K.ImageReference)
      → NamesRepository ref_string ref
      → parse_docker_repository_reference K R ref_string ≡ ok ref
  unfolding named_reference
  parsed_of_named names ref_string ref n =
      rw (n.begins, parse_of_prefix names n.rest, n.parses, n.name_only) n.refers

  -- Where the transports have their documented names, parseDockerRepositoryReference accepts exactly
  -- `docker://` and the name of a repository with no tag and no digest, whatever colons the rest has.
  pub parse_docker_repository_reference_iff :
      (names : IsNamed K R) (ref_string : Text) (ref : K.ImageReference)
      → (parse_docker_repository_reference K R ref_string ≡ ok ref) ↔ NamesRepository ref_string ref
  parse_docker_repository_reference_iff names ref_string ref = (
    λ h.
        named_of_prefixed names ref_string (drop_prefix ref_string (docker_prefix K R))
          (sym
            (append-drop_prefix ref_string (docker_prefix K R) (prefixed_of_parsed ref_string h)))
          h,
    parsed_of_named names ref_string ref,
  )
