-- ===== src/Login/Laws.antt =====
-- The context of login and logout.
use skopeo.Prelude.{◌≡◌, inl, inr, Bool-cases, [], ◌∷◌}
use skopeo.Flag.{OptionalBool}
use skopeo.External.Context.{Kinds}
use skopeo.Options.{GlobalOptions, global_system_context}
use skopeo.Options.Laws.{skip_of_first}
use skopeo.Login.{auth_context}

module _ (K : Kinds) (Settings : Type 0) where
  -- The context of login and logout is the global one, but for the TLS check of registries: it is
  -- skipped as the first flag says that was given, of the `--tls-verify` of the command and the
  -- global one, and undefined with none of them.
  pub auth_context_lem :
      (global : GlobalOptions) (tls_verify : OptionalBool)
      → auth_context K Settings global tls_verify ≡ record (global_system_context K global) {
        docker_insecure_skip_tls_verify = skip_of_first (tls_verify ∷ global.tls_verify ∷ []);
      }
  unfolding auth_context global_system_context
  auth_context_lem global tls_verify = elim (Bool-cases tls_verify.present) [
    | inl p ↦ rw p
    | inr p ↦ rw p
  ]
