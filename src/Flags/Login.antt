-- ===== src/Flags/Login.antt =====
-- From the flags of `skopeo login` and `skopeo logout` to what they call of package auth.
use skopeo.Prelude.{◌≡◌, refl, sym, ap, ◌∙◌, Bool, true, false, List, [], ◌∷◌, ◌++◌, if◌then◌else◌}
use skopeo.Prelude.Lists.{All}
use skopeo.Prelude.Texts.{Text, lit, ◌==◌}
use skopeo.Go.{Exec}
use skopeo.Flag.{OptionalBool, set_bool}
use skopeo.External.Context.{Kinds, SystemContext, Context}
use skopeo.External.Libraries.{command_output}
use skopeo.Options.{GlobalOptions, global_system_context, command_timeout_context}
use skopeo.Options.Laws.{skip_of_first}
use skopeo.Login.{
  AuthLoginOptions, AuthLogoutOptions, LoginOptions, LogoutOptions, auth_context, login, logout,
}
use skopeo.Login.Laws.{auth_context_lem}
use skopeo.Flags.{Ptr, FlagDef, FlagSet, Values, optional_bool_flag}
use skopeo.Flags.Cells.{Cells, global_of, option}
use skopeo.Flags.Image.{persistent_flags}
use skopeo.Flags.Starts.{new_login_cells, load_login, new_logout_cells, load_logout}
use skopeo.Flags.Auth.{flags_through, login_flags, logout_flags}
use skopeo.Flags.Given.{
  Given, effects, own_effects, Given-after, last_bool, change_bool, after_none,
}

-- No flag of a set has a name.
abbrev pub Without : {S : Type 0} → Text → FlagSet S → Type 0
Without {S} name = All (λ (f : FlagDef S). (f.name == name) ≡ false)

module _ {S A B : Type 0} (p : Ptr S A) (change : Text → B → B) (read : S → B)
    (apart : (a : A) (s : S) → read (p.put a s) ≡ read s) where
  -- Flags that write to another part change nothing.
  effects-through :
      (mine : Text → Bool) (fs : FlagSet A) (rest : FlagSet S)
      → All (λ (f : FlagDef A). mine f.name ≡ false) fs
      → effects mine change read rest ≡ own_effects mine change read rest
      → effects mine change read (flags_through p fs ++ rest)
        ≡ own_effects mine change read (flags_through p fs ++ rest)
  effects-through mine [] rest h e = e
  effects-through mine (f ∷ fs) rest (h, hs) e =
      let ih = effects-through mine fs rest hs e in
      let step : (v : Text) (s : S)
          → read (p.put (f.set v (p.get s)).1 s)
            ≡ (if mine f.name then change v (read s) else read s) =
        λ v s.
          apart (f.set v (p.get s)).1 s
          ∙ sym (ap (λ b. if b then change v (read s) else read s) h) in
      λ i. (λ v s. step v s i) ∷ ih i

abbrev is_tls : Text → Bool
is_tls n = n == lit "tls-verify"

none_mine : {A : Type 0} (fs : FlagSet A) → All (λ (f : FlagDef A). ◌≡◌ {A = Bool} false false) fs
none_mine [] = tt
none_mine (f ∷ fs) = (refl, none_mine fs)

-- The context that is made of the flags: `global` are the options of the program before the flags of
-- the command, and `now` after them.
abbrev pub context_of :
    (K : Kinds) → GlobalOptions → List (Text × Text) → GlobalOptions → SystemContext K
context_of K global settings now = record (global_system_context K now) {
  docker_insecure_skip_tls_verify =
      skip_of_first (last_bool (lit "tls-verify") settings ∷ global.tls_verify ∷ []);
}

auth_context-context_of :
    (K : Kinds) (Settings : Type 0) (global now : GlobalOptions) (settings : List (Text × Text))
    (tls_verify : OptionalBool)
    → tls_verify ≡ last_bool (lit "tls-verify") settings
    → now.tls_verify ≡ global.tls_verify
    → auth_context K Settings now tls_verify ≡ context_of K global settings now
auth_context-context_of K Settings global now settings tls_verify own of_global =
    auth_context_lem K Settings now tls_verify ∙ λ i. record (global_system_context K now) {
      docker_insecure_skip_tls_verify = skip_of_first (own i ∷ of_global i ∷ []);
    }

module _ {Settings : Type 0} (V : Values) (global : GlobalOptions)
    {settings : List (Text × Text)} where
  login_tls :
      (auth_flags : FlagSet (AuthLoginOptions Settings)) (login_opts : AuthLoginOptions Settings)
      {cells : Cells (LoginOptions Settings)}
      → Without (lit "tls-verify") auth_flags
      → Given (login_flags V auth_flags) settings (new_login_cells login_opts global) cells
      → (cells.options.tls_verify ≡ last_bool (lit "tls-verify") settings)
        × (cells.global.tls_verify ≡ global.tls_verify)
  unfolding login_flags optional_bool_flag lit ◌==◌ new_login_cells persistent_flags
  login_tls auth_flags login_opts apart given =
      let part =
        option {O = LoginOptions Settings} (λ o. o.login_opts)
          (λ b o. record o { login_opts = b }) in
      (
        Given-after is_tls change_bool (λ c. c.options.tls_verify)
            (ap (λ l. (λ v c. (set_bool v c.options.tls_verify).1) ∷ l)
              (effects-through part change_bool (λ c. c.options.tls_verify) (λ a c. refl) is_tls
                auth_flags (persistent_flags V global_of) apart refl))
            given,
        Given-after (λ n. false) change_bool (λ c. c.global.tls_verify)
              (ap (λ l. (λ v c. c.global.tls_verify) ∷ l)
                (effects-through part change_bool (λ c. c.global.tls_verify) (λ a c. refl)
                  (λ n. false) auth_flags (persistent_flags V global_of) (none_mine auth_flags)
                  refl))
              given
            ∙ after_none change_bool settings global.tls_verify,
      )

  logout_tls :
      (auth_flags : FlagSet (AuthLogoutOptions Settings)) (logout_opts : AuthLogoutOptions Settings)
      {cells : Cells (LogoutOptions Settings)}
      → Without (lit "tls-verify") auth_flags
      → Given (logout_flags V auth_flags) settings (new_logout_cells logout_opts global) cells
      → (cells.options.tls_verify ≡ last_bool (lit "tls-verify") settings)
        × (cells.global.tls_verify ≡ global.tls_verify)
  unfolding logout_flags optional_bool_flag lit ◌==◌ new_logout_cells persistent_flags
  logout_tls auth_flags logout_opts apart given =
      let part =
        option {O = LogoutOptions Settings} (λ o. o.logout_opts)
          (λ b o. record o { logout_opts = b }) in
      (
        Given-after is_tls change_bool (λ c. c.options.tls_verify)
            (ap (λ l. (λ v c. (set_bool v c.options.tls_verify).1) ∷ l)
              (effects-through part change_bool (λ c. c.options.tls_verify) (λ a c. refl) is_tls
                auth_flags (persistent_flags V global_of) apart refl))
            given,
        Given-after (λ n. false) change_bool (λ c. c.global.tls_verify)
              (ap (λ l. (λ v c. c.global.tls_verify) ∷ l)
                (effects-through part change_bool (λ c. c.global.tls_verify) (λ a c. refl)
                  (λ n. false) auth_flags (persistent_flags V global_of) (none_mine auth_flags)
                  refl))
              given
            ∙ after_none change_bool settings global.tls_verify,
      )

  module _ (K : Kinds) (auth_flags : FlagSet (AuthLoginOptions Settings))
      (logout_auth_flags : FlagSet (AuthLogoutOptions Settings))
      (login_opts : AuthLoginOptions Settings) (logout_opts : AuthLogoutOptions Settings) where
    -- Where package auth has no flag `--tls-verify`: after the flags `settings`, `skopeo login` and
    -- `skopeo logout` call that package with the context that the options of the program make as the
    -- flags have left them, but for the TLS check of registries, which is skipped as the last
    -- `--tls-verify` of the command says, else the flag of the program, and is undefined with neither;
    -- and with that package's own options as its flags have left them, but for the output, for login
    -- the input, and that repositories are accepted.
    pub auth_of_flags :
        (auth_login : Context
          → SystemContext K
          → AuthLoginOptions Settings
          → List Text
          → Exec (K.World) (Unit {0}))
        (auth_logout : SystemContext K
          → AuthLogoutOptions Settings
          → List Text
          → Exec (K.World) (Unit {0}))
        (args : List Text) {cells : Cells (LoginOptions Settings)}
        {logout_cells : Cells (LogoutOptions Settings)}
        → Without (lit "tls-verify") auth_flags
        → Without (lit "tls-verify") logout_auth_flags
        → Given (login_flags V auth_flags) settings (new_login_cells login_opts global) cells
        → Given
            (logout_flags V logout_auth_flags)
            settings
            (new_logout_cells logout_opts global)
            logout_cells
        → (login K Settings auth_login (load_login cells) args
            ≡ auth_login
                (command_timeout_context cells.global)
                (context_of K global settings cells.global)
                (record cells.options.login_opts {
                  stdout = command_output;
                  stdin = true;
                  accept_repositories = true;
                })
                args)
          × (logout K Settings auth_logout (load_logout logout_cells) args
              ≡ auth_logout
                  (context_of K global settings logout_cells.global)
                  (record logout_cells.options.logout_opts {
                    stdout = command_output;
                    accept_repositories = true;
                  })
                  args)
    unfolding login logout load_login load_logout
    auth_of_flags auth_login auth_logout args {cells} {logout_cells} apart apart' given given' =
        let (own, of_global) = login_tls auth_flags login_opts apart given in
        let (own', of_global') = logout_tls logout_auth_flags logout_opts apart' given' in
        (
          ap
              (λ (ctx : SystemContext K).
                auth_login (command_timeout_context cells.global) ctx
                  (record cells.options.login_opts {
                    stdout = command_output;
                    stdin = true;
                    accept_repositories = true;
                  })
                  args)
              (auth_context-context_of K Settings global cells.global settings _ own of_global),
          ap
              (λ (ctx : SystemContext K).
                auth_logout ctx
                  (record logout_cells.options.logout_opts {
                    stdout = command_output;
                    accept_repositories = true;
                  })
                  args)
              (auth_context-context_of K Settings global logout_cells.global settings _ own'
                of_global'),
        )
