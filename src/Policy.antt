-- ===== src/Policy.antt =====
-- `getPolicyContext` of cmd/skopeo/main.go, and the commands' `defer policyContext.Destroy()`.
pub mod Laws
use skopeo.Prelude.{if◌then◌else◌}
use skopeo.Prelude.Texts.{is_blank}
use skopeo.Go.{Exec, ◌>>=◌, pure}
use skopeo.External.Context.{Kinds}
use skopeo.External.Libraries.{Remote}
use skopeo.Options.{GlobalOptions}

module _ (K : Kinds) (N : Remote K) where
  choose_policy : GlobalOptions → Exec (K.World) (K.Policy)
  choose_policy opts =
      if opts.insecure_policy
      then pure (N.insecure_accept_anything)
      else if is_blank opts.policy_path
      then N.default_policy
      else N.new_policy_from_file opts.policy_path

  unfoldable pub get_policy_context : GlobalOptions → Exec (K.World) (K.PolicyContext)
  unfolding choose_policy
  get_policy_context opts = do policy ← choose_policy opts; N.new_policy_context policy

  -- The rest of a command that holds a policy context: the context is destroyed at every return.
  unfoldable pub destroying : {A : Type 0} → K.PolicyContext → Exec (K.World) A → Exec (K.World) A
  destroying p body w = let (r, w') = body w in (r, N.destroy p w')
