-- ===== src/Options/Laws.antt =====
-- Which flag decides each part of the `SystemContext`, and when the flags are refused.
use skopeo.Prelude.{
  refl, Bool-cases, ◌≡◌, ◌↔◌, ◌⊎◌, inl, inr, true, false, not, Option, none, some, List, [], ◌∷◌,
  arith, if◌then◌else◌,
}
use skopeo.Go.Laws.{Result-cases}
use skopeo.Prelude.Texts.{Text}
use skopeo.Go.{Result, errorf, GoError, ok, err}
use skopeo.Flag.{OptionalBool}
use skopeo.External.Context.{
  Kinds, SystemContext, OptionalTruth, undefined, new_optional_bool, DockerAuthConfig,
}
use skopeo.Options.{
  dest_system_context, with_dest, ImageDestOptions, ImageOptions, DeprecatedTlsVerifyOption,
  image_system_context,
}
use skopeo.Options.Creds.{get_docker_auth}

-- The negation of the first flag that was given.
abbrev pub skip_of_first : List OptionalBool → OptionalTruth
skip_of_first [] = undefined
skip_of_first (flag ∷ flags) =
    if flag.present then new_optional_bool (not flag.value) else skip_of_first flags

abbrev deprecated_flags : Option DeprecatedTlsVerifyOption → List OptionalBool → List OptionalBool
deprecated_flags none flags = flags
deprecated_flags (some d) flags = d.tls_verify ∷ flags

-- The three `--tls-verify` flags, the one of the image first and the global one last.
abbrev pub tls_flags : ImageOptions → List OptionalBool
tls_flags opts =
    opts.tls_verify ∷ deprecated_flags opts.deprecated_tls_verify (opts.global.tls_verify ∷ [])

-- The credentials that the options of an image give: those of its flag, nobody's with `--no-creds`, or
-- none.
pub data IsAuth (opts : ImageOptions) : Option DockerAuthConfig → Type 0 where
  of_creds :
      {auth : DockerAuthConfig}
      → opts.creds_option.present ≡ true
      → get_docker_auth opts.creds_option.value ≡ ok auth
      → IsAuth opts (some auth)
  of_nobody :
      opts.creds_option.present ≡ false
      → opts.no_creds ≡ true
      → IsAuth opts (some (record { username = []; password = []; identity_token = [] }))
  of_none : opts.creds_option.present ≡ false → opts.no_creds ≡ false → IsAuth opts none

module _ (K : Kinds) (opts : ImageOptions) {ctx : SystemContext K} where
  module _ (accepted : image_system_context K opts ≡ ok ctx) where
    -- In a context that `newSystemContext` returns, the TLS check of registries is skipped as the first
    -- flag says that was given: the image's `--tls-verify`, the deprecated one of the command, the
    -- global one. With none given it is undefined.
    pub tls_of_first : ctx.docker_insecure_skip_tls_verify ≡ skip_of_first (tls_flags opts)
    unfolding image_system_context
    tls_of_first = ground arith

    -- The daemon flag is set by the flag of the image alone.
    daemon_of_image :
        ctx.docker_daemon_insecure_skip_tls_verify
        ≡ (if opts.tls_verify.present then not opts.tls_verify.value else false)
    unfolding image_system_context
    daemon_of_image = ground arith

    pub auth_file_of : ctx.auth_file_path ≡ (
        if opts.auth_file_path.present
        then opts.auth_file_path.value
        else opts.shared.auth_file_path)
    unfolding image_system_context
    auth_file_of = ground arith

    pub kept_of :
        (ctx.docker_cert_path ≡ opts.docker_cert_path)
        × (ctx.architecture_choice ≡ opts.global.override_arch)
        × (ctx.os_choice ≡ opts.global.override_os)
        × (ctx.variant_choice ≡ opts.global.override_variant)
    unfolding image_system_context
    kept_of = (ground arith, ground arith, ground arith, ground arith)

    auth_of_no_creds :
        opts.no_creds ≡ true
        → (opts.creds_option.present ≡ false)
          × (ctx.docker_auth_config
              ≡ some (record { username = []; password = []; identity_token = [] }))
    unfolding image_system_context
    auth_of_no_creds h = ground arith

    auth_of_creds :
        opts.creds_option.present ≡ true
        → (auth : DockerAuthConfig) × (get_docker_auth opts.creds_option.value ≡ ok auth)
          × (ctx.docker_auth_config ≡ some auth)
    unfolding image_system_context
    auth_of_creds h = ground arith

    no_auth :
        opts.creds_option.present ≡ false → opts.no_creds ≡ false → ctx.docker_auth_config ≡ none
    unfolding image_system_context
    no_auth h k = ground arith

    docker_auth_config-IsAuth : IsAuth opts ctx.docker_auth_config
    docker_auth_config-IsAuth = elim (Bool-cases opts.creds_option.present) [
      | inl given ↦ let (auth, reads, p) = auth_of_creds given in rw p (of_creds given reads)
      | inr not_given ↦ elim (Bool-cases opts.no_creds) [
        | inl nobody ↦ rw (auth_of_no_creds nobody).1 (of_nobody not_given nobody)
        | inr neither ↦ rw (no_auth not_given neither) (of_none not_given neither)
      ]
    ]

    -- In a context that `newSystemContext` returns: the TLS check of registries is skipped as the
    -- first flag says that was given of the image's `--tls-verify`, the deprecated one of the command
    -- and the global one, and is undefined if none was; that of the docker daemon is skipped as the
    -- image's flag says, and by no other; the file for credentials is the image's own, else the one
    -- that is shared; and the credentials are those that were given and could be read, or
    -- those of nobody with `--no-creds`, or none.
    pub flags_decide :
        (ctx.docker_insecure_skip_tls_verify ≡ skip_of_first (tls_flags opts))
        × (ctx.docker_daemon_insecure_skip_tls_verify
            ≡ (if opts.tls_verify.present then not opts.tls_verify.value else false))
        × (ctx.auth_file_path ≡ (
            if opts.auth_file_path.present
            then opts.auth_file_path.value
            else opts.shared.auth_file_path))
        × IsAuth opts ctx.docker_auth_config
    flags_decide = (tls_of_first, daemon_of_image, auth_file_of, docker_auth_config-IsAuth)

-- The credentials flags contradict one another, or cannot be read.
abbrev pub CredsRefused : ImageOptions → Type 0
CredsRefused opts =
    (opts.creds_option.present ≡ true)
    × ((opts.no_creds ≡ true) ⊎ ((e : GoError) × (get_docker_auth opts.creds_option.value ≡ err e)))

module _ (K : Kinds) (opts : ImageOptions) where
  refused→ : (e : GoError) → image_system_context K opts ≡ err e → CredsRefused opts
  unfolding image_system_context
  refused→ e h = (
    ground arith,
    elim (Result-cases (get_docker_auth opts.creds_option.value)) [
      | inl (a, p) ↦ inl (ground arith)
      | inr bad ↦ inr bad
    ],
  )

  -- `newSystemContext` fails exactly when credentials were given, and also `--no-creds`, or
  -- credentials that cannot be read.
  pub refused_iff : ((e : GoError) × (image_system_context K opts ≡ err e)) ↔ CredsRefused opts
  unfolding image_system_context
  refused_iff = (
    λ (e, h). refused→ e h,
    λ (given, why). elim why [
      | inl both ↦
          (errorf "creds and no-creds cannot be specified at the same time" [], ground arith)
      | inr (e, bad) ↦ elim (Bool-cases opts.no_creds) [
        | inl both ↦
            (errorf "creds and no-creds cannot be specified at the same time" [], ground arith)
        | inr only ↦ (e, ground arith)
      ]
    ],
  )

module _ (K : Kinds) (algorithm_by_name : Text → Result (K.Algorithm)) where
  with_dest_tls :
      (opts : ImageDestOptions) (format : Text) (r : Result (SystemContext K))
      {ctx' : SystemContext K}
      → opts.compression_format ≡ format
      → with_dest K algorithm_by_name opts r ≡ ok ctx'
      → (base : SystemContext K) × (r ≡ ok base)
        × (ctx'.docker_insecure_skip_tls_verify ≡ base.docker_insecure_skip_tls_verify)
  with_dest_tls opts format (err e) f h = cc
  with_dest_tls opts [] (ok base) f h = (base, refl, ground arith)
  with_dest_tls opts (c ∷ s) (ok base) f h = (
    base,
    refl,
    elim (Result-cases (algorithm_by_name opts.compression_format)) [
      | inl (cf, p) ↦ ground arith
      | inr (e, p) ↦ ground arith
    ],
  )

  -- A context for a destination is made of one for an image, and skips the TLS check as that one.
  pub dest-image :
      (opts : ImageDestOptions) {ctx : SystemContext K}
      → dest_system_context K algorithm_by_name opts ≡ ok ctx
      → (base : SystemContext K) × (image_system_context K opts.image_options ≡ ok base)
        × (ctx.docker_insecure_skip_tls_verify ≡ base.docker_insecure_skip_tls_verify)
  unfolding dest_system_context
  dest-image opts h = with_dest_tls opts opts.compression_format _ refl h
