-- ===== src/Login.antt =====
-- cmd/skopeo/login.go and cmd/skopeo/logout.go
pub mod Laws
use skopeo.Prelude.{Bool, true, false, not, List, if◌then◌else◌}
use skopeo.Prelude.Texts.{Text}
use skopeo.Go.{Exec}
use skopeo.Flag.{OptionalBool}
use skopeo.External.Context.{Kinds, SystemContext, Context, new_optional_bool}
use skopeo.External.Libraries.{Writer, command_output}
use skopeo.Options.{GlobalOptions, global_system_context, command_timeout_context}

-- auth.LoginOptions with the fields that the program sets; `Settings` are the others.
pub record AuthLoginOptions (Settings : Type 0) : Type 0 where
  pub settings : Settings
  pub stdout : Writer
  -- Whether it reads `os.Stdin`
  pub stdin : Bool
  pub accept_repositories : Bool

-- auth.LogoutOptions
pub record AuthLogoutOptions (Settings : Type 0) : Type 0 where
  pub settings : Settings
  pub stdout : Writer
  pub accept_repositories : Bool

pub record LoginOptions (Settings : Type 0) : Type 0 where
  pub global : GlobalOptions
  pub login_opts : AuthLoginOptions Settings
  pub tls_verify : OptionalBool

pub record LogoutOptions (Settings : Type 0) : Type 0 where
  pub global : GlobalOptions
  pub logout_opts : AuthLogoutOptions Settings
  pub tls_verify : OptionalBool

module _ (K : Kinds) (Settings : Type 0) where
  -- The context of both commands.
  unfoldable pub auth_context : GlobalOptions → OptionalBool → SystemContext K
  unfolding global_system_context
  auth_context global tls_verify =
      let sys = global_system_context K global in
      if tls_verify.present
      then record sys { docker_insecure_skip_tls_verify = new_optional_bool (not tls_verify.value) }
      else sys

  -- `run` of `*loginOptions`; `auth_login` is `auth.Login`.
  unfoldable pub login :
      (Context
        → SystemContext K
        → AuthLoginOptions Settings
        → List Text
        → Exec (K.World) (Unit {0}))
      → LoginOptions Settings
      → List Text
      → Exec (K.World) (Unit {0})
  unfolding auth_context
  login auth_login opts args =
      auth_login (command_timeout_context opts.global) (auth_context opts.global opts.tls_verify)
        (record opts.login_opts {
          stdout = command_output;
          stdin = true;
          accept_repositories = true;
        })
        args

  -- `run` of `*logoutOptions`; `auth_logout` is `auth.Logout`.
  unfoldable pub logout :
      (SystemContext K → AuthLogoutOptions Settings → List Text → Exec (K.World) (Unit {0}))
      → LogoutOptions Settings
      → List Text
      → Exec (K.World) (Unit {0})
  unfolding auth_context
  logout auth_logout opts args =
      auth_logout (auth_context opts.global opts.tls_verify)
        (record opts.logout_opts { stdout = command_output; accept_repositories = true }) args
