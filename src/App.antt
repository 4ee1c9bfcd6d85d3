-- ===== src/App.antt =====
-- The program: `createApp`, `before` and `main` of cmd/skopeo/main.go.
use skopeo.Prelude.{Bool, true, false, List, [], ◌∷◌, ◌++◌, if◌then◌else◌}
use skopeo.Prelude.Texts.{Text, lit, is_blank}
use skopeo.Go.{Result, ok, err, GoError, Exec}
use skopeo.External.Context.{Kinds}
use skopeo.External.Libraries.{Host}
use skopeo.Flags.{Ptr, field, FlagSet, Values, bool_var, optional_bool_flag}
use skopeo.Flags.Image.{persistent_flags}
use skopeo.Options.{GlobalOptions, version}

-- A command of package cobra, as far as the program fills it beside its flags and its texts: the first
-- word of its `Use`.
pub record Command : Type 0 where
  pub name : Text
  pub hidden : Bool
  pub usage_template : Text
  pub disable_flags_in_use_line : Bool

abbrev usage_template : Text
usage_template =
    lit "Usage:{{if .Runnable}}\n{{.UseLine}}{{end}}{{if .HasAvailableSubCommands}}\n\n"
    ++ lit "{{.CommandPath}} [command]{{end}}{{if gt (len .Aliases) 0}}\n\nAliases:\n"
    ++ lit "{{.NameAndAliases}}{{end}}{{if .HasExample}}\n\nExamples:\n"
    ++ lit "{{.Example}}{{end}}{{if .HasAvailableSubCommands}}\n\n"
    ++ lit
        "Available Commands:{{range .Commands}}{{if (or .IsAvailableCommand (eq .Name \"help\"))}}\n"
    ++ lit
        "{{rpad .Name .NamePadding }} {{.Short}}{{end}}{{end}}{{end}}{{if .HasAvailableLocalFlags}}\n"
    ++ lit "\nFlags:\n"
    ++ lit
        "{{.LocalFlags.FlagUsages | trimTrailingWhitespaces}}{{end}}{{if .HasAvailableInheritedFlags}}\n"
    ++ lit "{{end}}\n"

abbrev adjust_usage : Command → Command
adjust_usage c = record c { usage_template = usage_template; disable_flags_in_use_line = true }

-- The state of the root command: the options, and `dummyVersion`.
pub record RootCells : Type 0 where
  pub global : GlobalOptions
  pub dummy_version : Bool

pub record RootCommand : Type 0 where
  pub name : Text
  pub silence_usage : Bool
  pub silence_errors : Bool
  pub disable_default_cmd : Bool
  pub traverse_children : Bool
  pub version_text : Text
  pub flags : FlagSet RootCells
  pub commands : List Command

abbrev command : Text → Bool → Command
command name hidden = adjust_usage (record {
  name = name;
  hidden = hidden;
  usage_template = [];
  disable_flags_in_use_line = false;
})

abbrev shown : Text → Command
shown name = command name false

module _ (V : Values) where
  abbrev global_of : Ptr RootCells GlobalOptions
  global_of = record { get = λ c. c.global; put = λ b c. record c { global = b } }

  abbrev version_of : Ptr RootCells Bool
  version_of = record { get = λ c. c.dummy_version; put = λ b c. record c { dummy_version = b } }

  -- The flags that the root command parses: its own, which no other command has, and the persistent
  -- ones.
  unfoldable pub root_flags : FlagSet RootCells
  unfolding optional_bool_flag persistent_flags
  root_flags =
      bool_var V version_of (lit "version") (lit "v")
      ∷ record (optional_bool_flag
          (field global_of (λ o. o.tls_verify) (λ b o. record o { tls_verify = b }))
          (lit "tls-verify")) { hidden = true }
      ∷ persistent_flags V global_of

  -- `createApp`
  unfoldable pub create_app : Text → RootCommand
  unfolding root_flags
  create_app git_commit = record {
    name = lit "skopeo";
    silence_usage = true;
    silence_errors = true;
    disable_default_cmd = true;
    traverse_children = true;
    version_text =
        if is_blank git_commit then version else version ++ lit " commit: " ++ git_commit;
    flags = root_flags;
    commands =
        shown (lit "copy")
        ∷ shown (lit "delete")
        ∷ shown (lit "inspect")
        ∷ command (lit "layers") true
        ∷ shown (lit "login")
        ∷ shown (lit "logout")
        ∷ shown (lit "manifest-digest")
        ∷ shown (lit "sync")
        ∷ shown (lit "standalone-sign")
        ∷ shown (lit "standalone-verify")
        ∷ shown (lit "list-tags")
        ∷ command (lit "untrusted-signature-dump-without-verification") true
        ∷ [];
  }

-- Packages logrus, reexec and cobra.
pub record Program (K : Kinds) : Type 0 where
  pub set_debug_level : K.World → K.World
  -- `logrus.Fatal`, after which the process ends
  pub fatal : GoError → K.World → K.World
  pub reexec_init : K.World → Bool × K.World
  pub execute : RootCommand → Exec (K.World) (Unit {0})

module _ (K : Kinds) (H : Host K) (X : Program K) where
  -- `before`, the `PersistentPreRunE` of every command.
  unfoldable pub before : GlobalOptions → Exec (K.World) (Unit {0})
  before opts w =
      let w' = if opts.debug then X.set_debug_level w else w in
      (
        ok tt,
        (if opts.tls_verify.present
            then H.warn
                (lit "'--tls-verify' is deprecated, please set this on the specific subcommand") w'
            else w'),
      )

  abbrev after_execute : Result (Unit {0}) × K.World → K.World
  after_execute (ok _, w) = w
  after_execute (err e, w) = X.fatal e w

  abbrev after_init : Values → Text → Bool × K.World → K.World
  after_init V git_commit (true, w) = w
  after_init V git_commit (false, w) = after_execute (X.execute (create_app V git_commit) w)

  -- `main`
  unfoldable pub main : Values → Text → K.World → K.World
  unfolding create_app
  main V git_commit w = after_init V git_commit (X.reexec_init w)
