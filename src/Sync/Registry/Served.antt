-- ===== src/Sync/Registry/Served.antt =====
-- What `imagesToCopyFromRegistry` gives, image by image: which references, with which context.
use skopeo.Prelude.{
  ◌≡◌, refl, ◌⊎◌, inl, inr, Bool, true, false, ◌&&◌, Bool-cases, Option, none, some, List, [], ◌∷◌,
  ◌++◌, if◌then◌else◌,
}
use skopeo.Prelude.Texts.{Text, is_blank}
use skopeo.Go.{ok, err, errorf, GoError}
use skopeo.Go.Laws.{Result-cases, run_cases}
use skopeo.External.Context.{Kinds, SystemContext, undefined, optional_true, optional_false}
use skopeo.External.Libraries.{References, Remote}
use skopeo.Sync.Config.{RepoDescriptor, RegistrySyncConfig}
use skopeo.Sync.Source.{parse_repository_reference, images_to_copy_from_repo}
use skopeo.Sync.Registry.{
  server_context, descriptors_of, gather, name_of_ref, reference_of, refs_of_texts, tag_of,
  keeps_ref, matching, listed_images, regex_images, images_to_copy_from_registry,
}

module _ (K : Kinds) where
  -- The context of a registry: the source's, with the certificates, the checks of TLS and the
  -- credentials of the registry. Credentials without any text are those of the source.
  abbrev pub context_of : RegistrySyncConfig → SystemContext K → SystemContext K
  context_of cfg source_ctx = record source_ctx {
    docker_cert_path = cfg.cert_dir;
    docker_daemon_cert_path = cfg.cert_dir;
    docker_daemon_insecure_skip_tls_verify = elim cfg.tls_verify.skip [
      | optional_true ↦ true
      | optional_false ↦ false
      | undefined ↦ false
    ];
    docker_insecure_skip_tls_verify = cfg.tls_verify.skip;
    docker_auth_config =
        if is_blank cfg.credentials.username
          && is_blank cfg.credentials.password
          && is_blank cfg.credentials.identity_token
        then source_ctx.docker_auth_config
        else some cfg.credentials;
  }

  server_context_lem :
      (cfg : RegistrySyncConfig) (ctx : SystemContext K)
      → server_context K cfg ctx ≡ context_of cfg ctx
  unfolding server_context
  server_context_lem cfg ctx = elim cfg.tls_verify.skip [
    | optional_true ↦ refl
    | optional_false ↦ refl
    | undefined ↦ refl
  ]

  -- Nothing for no references, and else one descriptor with all of them.
  abbrev pub described : SystemContext K → List (K.ImageReference) → List (RepoDescriptor K)
  described ctx [] = []
  described ctx (ref ∷ refs) =
      record { dir_base_path = []; image_refs = ref ∷ refs; context = ctx } ∷ []

  descriptors_of-described :
      (ctx : SystemContext K) (refs : List (K.ImageReference))
      → descriptors_of K ctx (ok refs) ≡ described ctx refs
  descriptors_of-described ctx [] = refl
  descriptors_of-described ctx (ref ∷ refs) = refl

  -- One step for each of a list, in order, with what they give one after the other.
  pub data Rounds {X D : Type 0} (Step : X → K.World → List D → K.World → Type 0)
      : List X → K.World → List D → K.World → Type 0 where
    finished : {w : K.World} → Rounds Step [] w [] w
    round :
        {x : X} {xs : List X} {w v u : K.World} {ds es : List D}
        → Step x w ds v
        → Rounds Step xs v es u
        → Rounds Step (x ∷ xs) w (ds ++ es) u

  gather-Rounds :
      {X D : Type 0} (Step : X → K.World → List D → K.World → Type 0)
      (once : X → K.World → List D × K.World)
      → ((x : X) (w : K.World) → Step x w (once x w).0 (once x w).1)
      → (xs : List X) (w : K.World) → Rounds Step xs w (gather K once xs w).0 (gather K once xs w).1
  unfolding gather
  gather-Rounds Step once h [] w = finished
  gather-Rounds Step once h (x ∷ xs) w = round (h x w) (gather-Rounds Step once h xs (once x w).1)

module _ (K : Kinds) (R : References K) where
  -- The text is a digest or, if it cannot be parsed as one, a tag; with it the repository has that
  -- name.
  pub data Names (repo : K.Named) (text : Text) (named : K.Named) : Type 0 where
    by_digest :
        (d : K.Digest)
        → R.parse_digest text ≡ ok d
        → R.with_digest repo d ≡ ok named
        → Names repo text named
    by_tag :
        (e : GoError)
        → R.parse_digest text ≡ err e
        → R.with_tag repo text ≡ ok named
        → Names repo text named

  Names-eq :
      (repo : K.Named) (text : Text) {named : K.Named}
      → Names repo text named
      → name_of_ref K R repo text (R.parse_digest text) ≡ ok named
  Names-eq repo text (by_digest d p q) = rw p q
  Names-eq repo text (by_tag e p q) = rw p q

  name_of_ref-Names :
      (repo : K.Named) (text : Text) {named : K.Named}
      → name_of_ref K R repo text (R.parse_digest text) ≡ ok named
      → Names repo text named
  name_of_ref-Names repo text h = elim (Result-cases (R.parse_digest text)) [
    | inl (d, p) ↦ by_digest d p (rw p at h)
    | inr (e, p) ↦ by_tag e p (rw p at h)
  ]

  abbrev pub IsReference : K.Named → Text → K.ImageReference → Type 0
  IsReference repo text ref =
      (named : K.Named) × Names repo text named × (R.new_reference named ≡ ok ref)

  -- The references that texts give, in order; texts that give none are left out.
  pub data AllRead (repo : K.Named) : List Text → List (K.ImageReference) → Type 0 where
    none_left : AllRead repo [] []
    read :
        {text : Text} {texts : List Text} {ref : K.ImageReference} {refs : List (K.ImageReference)}
        → IsReference repo text ref
        → AllRead repo texts refs
        → AllRead repo (text ∷ texts) (ref ∷ refs)
    left_out :
        {text : Text} {texts : List Text} {refs : List (K.ImageReference)}
        → ((ref : K.ImageReference) → ¬ IsReference repo text ref)
        → AllRead repo texts refs
        → AllRead repo (text ∷ texts) refs

  refs_of_texts-AllRead :
      (repo : K.Named) (texts : List Text) → AllRead repo texts (refs_of_texts K R repo texts)
  unfolding refs_of_texts
  refs_of_texts-AllRead repo [] = none_left
  refs_of_texts-AllRead repo (text ∷ texts) =
      let rest = refs_of_texts-AllRead repo texts in
      elim (Result-cases (name_of_ref K R repo text (R.parse_digest text))) [
        | inl (named, p) ↦ elim (Result-cases (R.new_reference named)) [
          | inl (ref, q) ↦
              rw (p, reference_of, q) (read (named, name_of_ref-Names repo text p, q) rest)
          | inr (e, q) ↦
              rw (p, reference_of, q)
                (left_out (λ ref (other, names, r). let same = Names-eq repo text names in cc) rest)
        ]
        | inr (e, p) ↦
            rw p
              (left_out (λ ref (other, names, r). let same = Names-eq repo text names in cc) rest)
      ]

  -- The reference has a tag, and it matches.
  abbrev pub IsMatch : (Text → Bool) → K.ImageReference → Type 0
  IsMatch matches ref =
      (named : K.Named) × (tag : Text) × (R.docker_reference ref ≡ some named)
      × (R.tag? named ≡ some tag)
      × (matches tag ≡ true)

  -- Exactly the references that match, in order.
  pub data Filtered (matches : Text → Bool)
      : List (K.ImageReference) → List (K.ImageReference) → Type 0 where
    all_seen : Filtered matches [] []
    kept :
        {ref : K.ImageReference} {refs left : List (K.ImageReference)}
        → IsMatch matches ref
        → Filtered matches refs left
        → Filtered matches (ref ∷ refs) (ref ∷ left)
    dropped :
        {ref : K.ImageReference} {refs left : List (K.ImageReference)}
        → ¬ IsMatch matches ref
        → Filtered matches refs left
        → Filtered matches (ref ∷ refs) left

  tag_kept :
      (matches : Text → Bool) (ref : K.ImageReference) (named : K.Named)
      → R.docker_reference ref ≡ some named
      → (t : Option Text) → R.tag? named ≡ t
      → keeps_ref K R matches t ≡ true
      → IsMatch matches ref
  tag_kept matches ref named p none q h = absurd (cc)
  tag_kept matches ref named p (some tag) q h = (named, tag, p, q, h)

  kept-IsMatch :
      (matches : Text → Bool) (ref : K.ImageReference) (r : Option (K.Named))
      → R.docker_reference ref ≡ r
      → keeps_ref K R matches (tag_of K R ref) ≡ true
      → IsMatch matches ref
  kept-IsMatch matches ref none p h = absurd (cc (rw (keeps_ref, tag_of, p) at h))
  kept-IsMatch matches ref (some named) p h =
      tag_kept matches ref named p (R.tag? named) refl (rw (tag_of, p) at h)

  IsMatch-kept :
      (matches : Text → Bool) (ref : K.ImageReference)
      → IsMatch matches ref
      → keeps_ref K R matches (tag_of K R ref) ≡ true
  IsMatch-kept matches ref (named, tag, p, q, h) = rw (tag_of, p, q) h

  matching-Filtered :
      (matches : Text → Bool) (refs : List (K.ImageReference))
      → Filtered matches refs (matching K R matches refs)
  unfolding matching
  matching-Filtered matches [] = all_seen
  matching-Filtered matches (ref ∷ refs) =
      let rest = matching-Filtered matches refs in
      elim (Bool-cases (keeps_ref K R matches (tag_of K R ref))) [
        | inl p ↦ rw p (kept (kept-IsMatch matches ref (R.docker_reference ref) refl p) rest)
        | inr p ↦ rw p (dropped (λ m. let q = IsMatch-kept matches ref m in cc) rest)
      ]

  -- The text names a repository, without a tag or a digest.
  abbrev pub IsRepository : Text → K.Named → Type 0
  IsRepository text repo = (R.parse_normalized_named text ≡ ok repo) × (R.is_name_only repo ≡ true)

  parse_repository_reference-IsRepository :
      (text : Text) (w : K.World)
      → ((repo : K.Named) × IsRepository text repo
          × (parse_repository_reference K R text w ≡ (ok repo, w)))
        ⊎ (((repo : K.Named) → ¬ IsRepository text repo)
            × ((e : GoError) × (parse_repository_reference K R text w ≡ (err e, w))))
  unfolding parse_repository_reference
  parse_repository_reference-IsRepository text w =
      elim (Result-cases (R.parse_normalized_named text)) [
        | inl (repo, p) ↦ elim (Bool-cases (R.is_name_only repo)) [
          | inl q ↦ inl (repo, (p, q), rw (p, q))
          | inr q ↦ inr (
            λ other (p', q'). cc,
            (errorf "input names a reference, not a repository" [], rw (p, q)),
          )
        ]
        | inr (e, p) ↦ inr (λ other (p', q'). cc, (e, rw p))
      ]

  module _ (N : Remote K) (registry_name : Text) (ctx : SystemContext K) where
    -- What one entry of `images` gives: nothing, if it is not the name of a repository; the
    -- references of its tags and digests, if it has any; else all that the registry lists, and
    -- nothing if it lists none or the listing fails.
    pub data Listed : Text × List Text → K.World → List (RepoDescriptor K) → K.World → Type 0 where
      no_repository :
          {image : Text} {texts : List Text} {w : K.World}
          → ((repo : K.Named) → ¬ IsRepository (registry_name ++ b'/' ∷ image) repo)
          → Listed (image, texts) w [] w
      given :
          {image text : Text} {texts : List Text} {found : List (K.ImageReference)} {w : K.World}
          (repo : K.Named)
          → IsRepository (registry_name ++ b'/' ∷ image) repo
          → AllRead repo (text ∷ texts) found
          → Listed (image, text ∷ texts) w (described K ctx found) w
      listed :
          {image : Text} {found : List (K.ImageReference)} {w w' : K.World} (repo : K.Named)
          → IsRepository (registry_name ++ b'/' ∷ image) repo
          → images_to_copy_from_repo K R N ctx repo w ≡ (ok found, w')
          → Listed (image, []) w (described K ctx found) w'
      not_listed :
          {image : Text} {w w' : K.World} (repo : K.Named) (e : GoError)
          → IsRepository (registry_name ++ b'/' ∷ image) repo
          → images_to_copy_from_repo K R N ctx repo w ≡ (err e, w')
          → Listed (image, []) w [] w'

    -- What one entry of `images-by-tag-regex` gives: nothing, if it is not the name of a repository,
    -- its expression is not one, or the listing fails; else the references listed that match.
    pub data ByRegex : Text × Text → K.World → List (RepoDescriptor K) → K.World → Type 0 where
      no_repository_of :
          {image regex : Text} {w : K.World}
          → ((repo : K.Named) → ¬ IsRepository (registry_name ++ b'/' ∷ image) repo)
          → ByRegex (image, regex) w [] w
      no_regex :
          {image regex : Text} {w : K.World} (repo : K.Named) (e : GoError)
          → IsRepository (registry_name ++ b'/' ∷ image) repo
          → R.compile_regexp regex ≡ err e
          → ByRegex (image, regex) w [] w
      not_found :
          {image regex : Text} {w w' : K.World} (repo : K.Named) (matches : Text → Bool)
          (e : GoError)
          → IsRepository (registry_name ++ b'/' ∷ image) repo
          → R.compile_regexp regex ≡ ok matches
          → images_to_copy_from_repo K R N ctx repo w ≡ (err e, w')
          → ByRegex (image, regex) w [] w'
      filtered :
          {image regex : Text} {all left : List (K.ImageReference)} {w w' : K.World}
          (repo : K.Named) (matches : Text → Bool)
          → IsRepository (registry_name ++ b'/' ∷ image) repo
          → R.compile_regexp regex ≡ ok matches
          → images_to_copy_from_repo K R N ctx repo w ≡ (ok all, w')
          → Filtered matches all left
          → ByRegex (image, regex) w (described K ctx left) w'

    listed_images-Listed :
        (x : Text × List Text) (w : K.World)
        → Listed x w
            (listed_images K R N registry_name ctx x w).0
            (listed_images K R N registry_name ctx x w).1
    unfolding listed_images
    listed_images-Listed (image, []) w =
        elim (parse_repository_reference-IsRepository (registry_name ++ b'/' ∷ image) w) [
          | inl (repo, is, p) ↦ elim (run_cases (images_to_copy_from_repo K R N ctx repo w)) [
            | inl (found, v, q) ↦ rw (p, q, descriptors_of-described K ctx found) (listed repo is q)
            | inr (e, v, q) ↦ rw (p, q) (not_listed repo e is q)
          ]
          | inr (is_not, (e, p)) ↦ rw p (no_repository is_not)
        ]
    listed_images-Listed (image, text ∷ texts) w =
        elim (parse_repository_reference-IsRepository (registry_name ++ b'/' ∷ image) w) [
          | inl (repo, is, p) ↦
              rw (p, descriptors_of-described K ctx (refs_of_texts K R repo (text ∷ texts)))
                (given repo is (refs_of_texts-AllRead repo (text ∷ texts)))
          | inr (is_not, (e, p)) ↦ rw p (no_repository is_not)
        ]

    regex_images-ByRegex :
        (x : Text × Text) (w : K.World)
        → ByRegex x w
            (regex_images K R N registry_name ctx x w).0
            (regex_images K R N registry_name ctx x w).1
    unfolding regex_images
    regex_images-ByRegex (image, regex) w =
        elim (parse_repository_reference-IsRepository (registry_name ++ b'/' ∷ image) w) [
          | inl (repo, is, p) ↦ elim (Result-cases (R.compile_regexp regex)) [
            | inl (matches, c) ↦ elim (run_cases (images_to_copy_from_repo K R N ctx repo w)) [
              | inl (all, v, q) ↦
                  rw (p, c, q, descriptors_of-described K ctx (matching K R matches all))
                    (filtered repo matches is c q (matching-Filtered matches all))
              | inr (e, v, q) ↦ rw (p, c, q) (not_found repo matches e is c q)
            ]
            | inr (e, c) ↦ rw (p, c) (no_regex repo e is c)
          ]
          | inr (is_not, (e, p)) ↦ rw p (no_repository_of is_not)
        ]

  -- Reading the images of a registry gives no error. It goes over `images` and then over
  -- `images-by-tag-regex`, each in order, and puts together what the entries give by themselves, with
  -- the context of the registry.
  pub images_to_copy_from_registry_lem :
      (N : Remote K) (registry_name : Text) (cfg : RegistrySyncConfig)
      (source_ctx : SystemContext K) (w : K.World)
      → (listed : List (RepoDescriptor K)) × (by_regex : List (RepoDescriptor K)) × (v : K.World)
        × (w' : K.World) × (images_to_copy_from_registry K R N registry_name cfg source_ctx w
            ≡ (ok (listed ++ by_regex), w'))
        × Rounds K (Listed N registry_name (context_of K cfg source_ctx)) cfg.images w listed v
        × Rounds K
            (ByRegex N registry_name (context_of K cfg source_ctx))
            cfg.images_by_tag_regex
            v
            by_regex
            w'
  unfolding images_to_copy_from_registry
  images_to_copy_from_registry_lem N registry_name cfg source_ctx w =
      let ctx = context_of K cfg source_ctx in
      let first = gather K (listed_images K R N registry_name ctx) cfg.images w in
      let second =
        gather K (regex_images K R N registry_name ctx) cfg.images_by_tag_regex first.1 in
      (
        first.0,
        second.0,
        first.1,
        second.1,
        rw (server_context_lem K cfg source_ctx) refl,
        gather-Rounds K _ _ (listed_images-Listed N registry_name ctx) cfg.images w,
        gather-Rounds K _ _ (regex_images-ByRegex N registry_name ctx) cfg.images_by_tag_regex
            first.1,
      )
