-- ===== src/Tests/AuthTests.antt =====
-- Flags that are given to `skopeo login` and `skopeo logout`.
use skopeo.Prelude.{◌≡◌, refl, true, false, List, [], ◌∷◌}
use skopeo.Prelude.Texts.{Text, lit, ◌==◌}
use skopeo.Go.{ok, Exec}
use skopeo.Flag.{set_bool}
use skopeo.External.Context.{SystemContext, Context}
use skopeo.External.Libraries.{os_stdout, command_output}
use skopeo.Options.{command_timeout_context}
use skopeo.Login.{AuthLoginOptions, AuthLogoutOptions, LoginOptions, LogoutOptions, login, logout}
use skopeo.Flags.{FlagSet, optional_bool_flag}
use skopeo.Flags.Cells.{Cells}
use skopeo.Flags.Starts.{new_login_cells, load_login, new_logout_cells, load_logout}
use skopeo.Flags.Auth.{login_flags, logout_flags}
use skopeo.Flags.Given.{here, Given, all_given, give}
use skopeo.Flags.Login.{Without, context_of, auth_of_flags}
use skopeo.Tests.FlagTests.{values, set_off}
use skopeo.Tests.OptionTests.{global}
use skopeo.Tests.World.{kinds}

-- Package auth has the flag `--username`.
abbrev auth_flags : FlagSet (AuthLoginOptions Text)
auth_flags =
    record {
      name = lit "username";
      shorthand = lit "u";
      no_opt_def_val = [];
      hidden = false;
      set = λ v o. (ok tt, record o { settings = v });
    }
    ∷ []

abbrev logout_auth_flags : FlagSet (AuthLogoutOptions Text)
logout_auth_flags = []

abbrev login_opts : AuthLoginOptions Text
login_opts = record {
  settings = [];
  stdout = os_stdout;
  stdin = false;
  accept_repositories = false;
}

abbrev logout_opts : AuthLogoutOptions Text
logout_opts = record { settings = []; stdout = os_stdout; accept_repositories = false }

abbrev settings : List (Text × Text)
settings = (lit "tls-verify", lit "false") ∷ []

abbrev login_fresh : Cells (LoginOptions Text)
unfolding new_login_cells
login_fresh = new_login_cells login_opts global

abbrev login_off : Cells (LoginOptions Text)
login_off = record login_fresh { options = record login_fresh.options { tls_verify = set_off } }

login-Given : Given (login_flags values auth_flags) settings login_fresh login_off
unfolding login_flags optional_bool_flag set_bool new_login_cells lit skopeo.Flag.parse_bool ◌==◌
login-Given = give {s = login_fresh} {t = login_off} _ (lit "false") here refl all_given

abbrev logout_fresh : Cells (LogoutOptions Text)
unfolding new_logout_cells
logout_fresh = new_logout_cells logout_opts global

abbrev logout_off : Cells (LogoutOptions Text)
logout_off = record logout_fresh { options = record logout_fresh.options { tls_verify = set_off } }

logout-Given : Given (logout_flags values logout_auth_flags) settings logout_fresh logout_off
unfolding logout_flags optional_bool_flag set_bool new_logout_cells lit skopeo.Flag.parse_bool ◌==◌
logout-Given = give {s = logout_fresh} {t = logout_off} _ (lit "false") here refl all_given

abbrev auth_login :
    Context → SystemContext kinds → AuthLoginOptions Text → List Text → Exec (List Text) (Unit {0})
auth_login ctx sys o args w = (ok tt, o.settings ∷ w)

abbrev auth_logout :
    SystemContext kinds → AuthLogoutOptions Text → List Text → Exec (List Text) (Unit {0})
auth_logout sys o args w = (ok tt, lit "out" ∷ w)

username_apart : Without (lit "tls-verify") auth_flags
unfolding lit ◌==◌
username_apart = (refl, tt)

auth_of_flags_example :
    (login kinds Text auth_login (load_login login_off) (lit "quay.io" ∷ [])
      ≡ auth_login
          (command_timeout_context login_off.global)
          (context_of kinds global settings login_off.global)
          (record login_off.options.login_opts {
            stdout = command_output;
            stdin = true;
            accept_repositories = true;
          })
          (lit "quay.io" ∷ []))
    × (logout kinds Text auth_logout (load_logout logout_off) (lit "quay.io" ∷ [])
        ≡ auth_logout
            (context_of kinds global settings logout_off.global)
            (record logout_off.options.logout_opts {
              stdout = command_output;
              accept_repositories = true;
            })
            (lit "quay.io" ∷ []))
unfolding login_fresh logout_fresh
auth_of_flags_example =
    auth_of_flags values global kinds auth_flags logout_auth_flags login_opts logout_opts auth_login
      auth_logout (lit "quay.io" ∷ []) username_apart tt login-Given logout-Given
