-- ===== src/Flags/Single/Context.antt =====
-- The context of the image of a command with one, by the flags that were given.
use skopeo.Prelude.{◌≡◌, refl, ap, ◌∙◌, Bool, false, List, [], ◌∷◌, if◌then◌else◌}
use skopeo.Prelude.Texts.{Text, lit, ◌==◌}
use skopeo.Go.{ok}
use skopeo.Flag.{OptionalString, set_string}
use skopeo.External.Context.{Kinds, SystemContext}
use skopeo.Options.{GlobalOptions, SharedImageOptions, image_system_context}
use skopeo.Options.Laws.{skip_of_first, tls_of_first, auth_file_of, kept_of}
use skopeo.Flags.{Values, optional_bool_flag}
use skopeo.Flags.Cells.{Cells, unset_string}
use skopeo.Flags.Commands.{inspect_flags, delete_flags, layers_flags, tags_flags}
use skopeo.Flags.Given.{
  Given, after, effects, own_effects, Given-after, last_bool, change_bool, after_none,
}
use skopeo.Flags.Single.{
  SingleCommand, inspect, delete, layers, list_tags, OptionsOf, flags_of, new_cells_of, given_image,
  image_of, starts, loads,
}

module _ (V : Values) where
  abbrev change_text : Text → Text → Text
  change_text v s = (V.set_string_var v s).1

  abbrev change_string : Text → OptionalString → OptionalString
  change_string v s = (set_string v s).1

  -- What a flag of type string holds after the settings, where it held `start` before.
  abbrev pub last_text : Text → List (Text × Text) → Text → Text
  last_text name settings start = after (λ n. n == name) change_text settings start

  -- The flags of a name, and no others, change what `read` reads.
  abbrev Owns :
      {A : Type 0}
      → (c : SingleCommand) → (Text → Bool)
      → (Text → A → A)
      → (Cells (OptionsOf c) → A)
      → Type 0
  Owns c mine change read =
      effects mine change read (flags_of V c) ≡ own_effects mine change read (flags_of V c)

  own_tls :
      (c : SingleCommand)
      → Owns c (λ n. n == lit "tls-verify") change_bool (λ cells. (given_image c cells).tls_verify)
  unfolding inspect_flags delete_flags layers_flags tags_flags optional_bool_flag lit ◌==◌
  own_tls inspect = refl
  own_tls delete = refl
  own_tls layers = refl
  own_tls list_tags = refl

  own_global_tls :
      (c : SingleCommand) → Owns c (λ n. false) change_bool (λ cells. cells.global.tls_verify)
  unfolding inspect_flags delete_flags layers_flags tags_flags optional_bool_flag lit
  own_global_tls inspect = refl
  own_global_tls delete = refl
  own_global_tls layers = refl
  own_global_tls list_tags = refl

  own_auth_file :
      (c : SingleCommand)
      → Owns c (λ n. n == lit "authfile") change_text (λ cells. cells.shared.auth_file_path)
  unfolding inspect_flags delete_flags layers_flags tags_flags optional_bool_flag lit ◌==◌
  own_auth_file inspect = refl
  own_auth_file delete = refl
  own_auth_file layers = refl
  own_auth_file list_tags = refl

  -- The image has no flag for credentials beside the one of the command.
  own_image_auth_file :
      (c : SingleCommand)
      → Owns c (λ n. false) change_string (λ cells. (given_image c cells).auth_file_path)
  unfolding inspect_flags delete_flags layers_flags tags_flags optional_bool_flag lit
  own_image_auth_file inspect = refl
  own_image_auth_file delete = refl
  own_image_auth_file layers = refl
  own_image_auth_file list_tags = refl

  own_cert_dir :
      (c : SingleCommand)
      → Owns c
          (λ n. n == lit "cert-dir")
          change_text
          (λ cells. (given_image c cells).docker_cert_path)
  unfolding inspect_flags delete_flags layers_flags tags_flags optional_bool_flag lit ◌==◌
  own_cert_dir inspect = refl
  own_cert_dir delete = refl
  own_cert_dir layers = refl
  own_cert_dir list_tags = refl

  own_arch :
      (c : SingleCommand)
      → Owns c (λ n. n == lit "override-arch") change_text (λ cells. cells.global.override_arch)
  unfolding inspect_flags delete_flags layers_flags tags_flags optional_bool_flag lit ◌==◌
  own_arch inspect = refl
  own_arch delete = refl
  own_arch layers = refl
  own_arch list_tags = refl

  own_os :
      (c : SingleCommand)
      → Owns c (λ n. n == lit "override-os") change_text (λ cells. cells.global.override_os)
  unfolding inspect_flags delete_flags layers_flags tags_flags optional_bool_flag lit ◌==◌
  own_os inspect = refl
  own_os delete = refl
  own_os layers = refl
  own_os list_tags = refl

  own_variant :
      (c : SingleCommand)
      → Owns c
          (λ n. n == lit "override-variant")
          change_text
          (λ cells. cells.global.override_variant)
  unfolding inspect_flags delete_flags layers_flags tags_flags optional_bool_flag lit ◌==◌
  own_variant inspect = refl
  own_variant delete = refl
  own_variant layers = refl
  own_variant list_tags = refl

  -- The context of the image, by the flags that were given.
  pub record IsOf (global : GlobalOptions) (auth_file : Text) (settings : List (Text × Text))
      (K : Kinds) (ctx : SystemContext K) : Type 0 where
    pub tls :
        ctx.docker_insecure_skip_tls_verify
        ≡ skip_of_first (last_bool (lit "tls-verify") settings ∷ global.tls_verify ∷ [])
    pub auth_file_path : ctx.auth_file_path ≡ last_text (lit "authfile") settings auth_file
    pub cert_dir : ctx.docker_cert_path ≡ last_text (lit "cert-dir") settings []
    pub arch :
        ctx.architecture_choice ≡ last_text (lit "override-arch") settings global.override_arch
    pub os : ctx.os_choice ≡ last_text (lit "override-os") settings global.override_os
    pub variant :
        ctx.variant_choice ≡ last_text (lit "override-variant") settings global.override_variant

  module _ (c : SingleCommand) (global : GlobalOptions) (auth_file : Text)
      {settings : List (Text × Text)} {cells : Cells (OptionsOf c)}
      (given : Given (flags_of V c) settings (new_cells_of c global auth_file) cells) where
    -- What a flag of a name has left in the structures.
    abbrev left :
        {A : Type 0} (mine : Text → Bool) (change : Text → A → A) (read : Cells (OptionsOf c) → A)
        {a : A}
        → Owns c mine change read
        → read (new_cells_of c global auth_file) ≡ a
        → read cells ≡ after mine change settings a
    left mine change read own new =
        Given-after mine change read own given ∙ ap (after mine change settings) new

    global_text :
        (name : Text) (read : GlobalOptions → Text)
        → Owns c (λ n. n == name) change_text (λ cells. read cells.global)
        → read (image_of c cells).global ≡ last_text name settings (read global)
    global_text name read own =
        let (new_global, _, _, _, _) = starts c global auth_file in
        let (_, globals, _, _, _) = loads c cells in
        ap read globals
        ∙ left (λ n. n == name) change_text (λ cells. read cells.global) own (ap read new_global)

    -- After the flags `settings` of a command with one image, the context of the image that its
    -- options make has these parts: the TLS check of registries is skipped as the last `--tls-verify`
    -- of the command says, else the flag of the program; the file for credentials is that of the last
    -- `--authfile`, else of $REGISTRY_AUTH_FILE; the certificates are those of the last `--cert-dir`;
    -- and the architecture, the operating system and the variant are those of the last flag for them.
    pub single_context :
        (K : Kinds) {ctx : SystemContext K}
        → image_system_context K (image_of c cells) ≡ ok ctx
        → IsOf global auth_file settings K ctx
    single_context K {ctx} accepted =
        let (new_global, new_auth, new_tls, new_own_auth, new_cert) = starts c global auth_file in
        let (flags, globals, shared, own_auth, cert) = loads c cells in
        let (of_cert, of_arch, of_os, of_variant) =
          kept_of K (image_of c cells) {ctx = ctx} accepted in
        let no_own_auth : (image_of c cells).auth_file_path ≡ unset_string =
          own_auth
          ∙ left (λ n. false) change_string (λ cells. (given_image c cells).auth_file_path)
              (own_image_auth_file c) new_own_auth
          ∙ after_none change_string settings _ in
        let own =
          left _ change_bool (λ cells. (given_image c cells).tls_verify) (own_tls c) new_tls in
        let of_global =
          left (λ n. false) change_bool (λ cells. cells.global.tls_verify) (own_global_tls c)
            (ap (λ (g : GlobalOptions). g.tls_verify) new_global)
          ∙ after_none change_bool settings _ in
        record {
          tls =
              tls_of_first K (image_of c cells) {ctx = ctx} accepted
              ∙ ap skip_of_first (flags ∙ (λ i. own i ∷ of_global i ∷ []));
          auth_file_path =
              auth_file_of K (image_of c cells) {ctx = ctx} accepted
              ∙ ap
                  (λ (o : OptionalString).
                    if o.present then o.value else (image_of c cells).shared.auth_file_path)
                  no_own_auth
              ∙ ap (λ (o : SharedImageOptions). o.auth_file_path) shared
              ∙ left _ change_text (λ cells. cells.shared.auth_file_path) (own_auth_file c)
                  new_auth;
          cert_dir =
              of_cert
              ∙ cert
              ∙ left _ change_text (λ cells. (given_image c cells).docker_cert_path)
                  (own_cert_dir c) new_cert;
          arch = of_arch ∙ global_text (lit "override-arch") (λ g. g.override_arch) (own_arch c);
          os = of_os ∙ global_text (lit "override-os") (λ g. g.override_os) (own_os c);
          variant =
              of_variant
              ∙ global_text (lit "override-variant") (λ g. g.override_variant) (own_variant c);
        }
