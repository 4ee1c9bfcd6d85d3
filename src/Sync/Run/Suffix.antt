-- ===== src/Sync/Run/Suffix.antt =====
-- Where `skopeo sync` puts an image below its destination.
use mathlib.Core.Path.{subst}
use skopeo.Prelude.{
  ◌≡◌, ◌≢◌, sym, ◌∙◌, ap, ◌⊎◌, Bool, true, false, some, ◌++◌, arith, if◌then◌else◌,
}
use skopeo.Prelude.Lists.{All}
use skopeo.Prelude.Texts.{Text, is_blank}
use skopeo.Prelude.Texts.Laws.{Lacks, trim_prefix-append}
use skopeo.Go.{Result, ok, err}
use skopeo.Go.Path.{slash, base, join, elements}
use skopeo.Go.Path.Base.{base-Lacks}
use skopeo.Go.Path.Laws.{IsPlain, join-injective}
use skopeo.External.Context.{Kinds}
use skopeo.External.Libraries.{References, docker, directory}
use skopeo.Sync.Run.{dest_suffix, scope_suffix, full_suffix}

module _ (K : Kinds) (R : References K) where
  -- Without `--scoped`, what an image is called below the destination is one path element: it is a
  -- slash, or has no slash.
  pub dest_suffix-Lacks :
      (dir_base_path : Text) (ref : K.ImageReference) (suffix : Text)
      → dest_suffix K R false dir_base_path ref ≡ ok suffix
      → (suffix ≡ slash) ⊎ Lacks b'/' suffix
  unfolding dest_suffix
  dest_suffix-Lacks d ref suffix h = of_full (full_suffix K R d ref (R.transport ref)) h
    where
      of_full :
          (r : Result Text)
          → scope_suffix K R false r ≡ ok suffix
          → (suffix ≡ slash) ⊎ Lacks b'/' suffix
      of_full (ok full) e =
          let same : base full ≡ suffix = ground arith in
          subst (λ t. (t ≡ slash) ⊎ Lacks b'/' t) same (base-Lacks full)
      of_full (err e) e' = cc

  -- With `--scoped`, an image in a directory below the source directory keeps its path below it, and
  -- an image in the source directory itself is called by the base of that directory.
  pub dest_suffix_of_dir :
      (dir_base_path rest : Text) (ref : K.ImageReference)
      → R.transport ref ≡ directory
      → R.string_within_transport ref ≡ dir_base_path ++ rest
      → dest_suffix K R true dir_base_path ref
        ≡ ok (if is_blank rest then base dir_base_path else rest)
  unfolding dest_suffix
  dest_suffix_of_dir d rest ref t s = rw (t, s, trim_prefix-append)

  -- A registry image is called by its reference, or by the base of it without `--scoped`.
  pub dest_suffix_of_docker :
      (scoped : Bool) (dir_base_path : Text) (ref : K.ImageReference) {named : K.Named}
      → R.transport ref ≡ docker
      → R.docker_reference ref ≡ some named
      → dest_suffix K R scoped dir_base_path ref
        ≡ ok (if scoped then R.string named else base (R.string named))
  unfolding dest_suffix
  dest_suffix_of_docker scoped d ref t e = rw (t, full_suffix) (rw e)

  module _ (d d' destination : Text) (r r' : K.ImageReference) (n n' : K.Named) {s s' : Text} where
    scoped-injective :
        R.transport r ≡ docker
        → R.transport r' ≡ docker
        → R.docker_reference r ≡ some n
        → R.docker_reference r' ≡ some n'
        → is_blank destination ≡ false
        → All IsPlain (elements (R.string n))
        → All IsPlain (elements (R.string n'))
        → dest_suffix K R true d r ≡ ok s
        → dest_suffix K R true d' r' ≡ ok s'
        → join destination s ≡ join destination s'
        → R.string n ≡ R.string n'
    unfolding dest_suffix
    scoped-injective t t' e e' nb h h' p p' j =
        join-injective destination (R.string n) (R.string n') nb h h'
          (ap (join destination) a ∙ j ∙ sym (ap (join destination) a'))
      where
        a : R.string n ≡ s
        a = ground (arith, dest_suffix_of_docker true d r t e)

        a' : R.string n' ≡ s'
        a' = ground (arith, dest_suffix_of_docker true d' r' t' e')

    -- With `--scoped`, two registry images with different names, all of whose path elements are
    -- plain, have different places below one destination that is not blank.
    pub scoped_apart :
        R.transport r ≡ docker
        → R.transport r' ≡ docker
        → R.docker_reference r ≡ some n
        → R.docker_reference r' ≡ some n'
        → is_blank destination ≡ false
        → All IsPlain (elements (R.string n))
        → All IsPlain (elements (R.string n'))
        → dest_suffix K R true d r ≡ ok s
        → dest_suffix K R true d' r' ≡ ok s'
        → R.string n ≢ R.string n'
        → join destination s ≢ join destination s'
    scoped_apart t t' e e' nb h h' p p' differ j =
        differ (scoped-injective t t' e e' nb h h' p p' j)
