-- ===== src/Options/Warnings.antt =====
-- `warnIfUsed` of cmd/skopeo/utils.go.
use skopeo.Prelude.{List, [], ◌∷◌, ◌++◌, if◌then◌else◌}
use skopeo.Prelude.Texts.{Text, lit}
use skopeo.Go.{ok, Exec}
use skopeo.External.Context.{Kinds}
use skopeo.External.Libraries.{Host}
use skopeo.Options.{DeprecatedTlsVerifyOption}

-- `strings.Join(alternatives, ", ")`
abbrev join_texts : List Text → Text
join_texts [] = []
join_texts (s ∷ []) = s
join_texts (s ∷ t ∷ ts) = s ++ lit ", " ++ join_texts (t ∷ ts)

-- What copy and sync name instead of `--tls-verify`.
abbrev pub two_sides : List Text
two_sides = lit "--src-tls-verify" ∷ lit "--dest-tls-verify" ∷ []

module _ (K : Kinds) (H : Host K) where
  unfoldable pub warn_if_used : DeprecatedTlsVerifyOption → List Text → Exec (K.World) (Unit {0})
  warn_if_used opts alternatives w = (
    ok tt,
    (if opts.tls_verify.present
        then H.warn (lit "'--tls-verify' is deprecated, instead use: " ++ join_texts alternatives) w
        else w),
  )
