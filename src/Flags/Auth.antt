-- ===== src/Flags/Auth.antt =====
-- The flags of `loginCmd` and `logoutCmd`. Those of package auth, `GetLoginFlags` and `GetLogoutFlags`,
-- are arguments.
use skopeo.Prelude.{[], ◌∷◌, ◌++◌}
use skopeo.Prelude.Texts.{lit}
use skopeo.Login.{AuthLoginOptions, AuthLogoutOptions, LoginOptions, LogoutOptions}
use skopeo.Flags.{Ptr, FlagSet, Values, through, optional_bool_flag}
use skopeo.Flags.Cells.{Cells, global_of, option}
use skopeo.Flags.Image.{persistent_flags}

-- Flags that write to a part of a structure.
abbrev pub flags_through : {S A : Type 0} → Ptr S A → FlagSet A → FlagSet S
flags_through p [] = []
flags_through p (f ∷ fs) =
    record {
      name = f.name;
      shorthand = f.shorthand;
      no_opt_def_val = f.no_opt_def_val;
      hidden = f.hidden;
      set = λ v. through p (f.set v);
    }
    ∷ flags_through p fs

module _ {Settings : Type 0} (V : Values) where
  unfoldable pub login_flags :
      FlagSet (AuthLoginOptions Settings) → FlagSet (Cells (LoginOptions Settings))
  unfolding optional_bool_flag persistent_flags
  login_flags auth_flags =
      optional_bool_flag (option (λ o. o.tls_verify) (λ b o. record o { tls_verify = b }))
        (lit "tls-verify")
      ∷ (flags_through (option (λ o. o.login_opts) (λ b o. record o { login_opts = b })) auth_flags
          ++ persistent_flags V global_of)

  unfoldable pub logout_flags :
      FlagSet (AuthLogoutOptions Settings) → FlagSet (Cells (LogoutOptions Settings))
  unfolding optional_bool_flag persistent_flags
  logout_flags auth_flags =
      optional_bool_flag (option (λ o. o.tls_verify) (λ b o. record o { tls_verify = b }))
        (lit "tls-verify")
      ∷ (flags_through (option (λ o. o.logout_opts) (λ b o. record o { logout_opts = b }))
            auth_flags
          ++ persistent_flags V global_of)
