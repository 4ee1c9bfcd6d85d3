-- ===== src/External/Process.antt =====
-- The process's capabilities and user namespace (packages capability and unshare), and what a
-- command writes.
use skopeo.Prelude.{Bool}
use skopeo.Prelude.Texts.{Text}
use skopeo.Go.{Exec}
use skopeo.External.Context.{Kinds}

pub data Capability : Type 0 where
  chown dac_override fowner fsetid mknod setfcap : Capability

pub record Process (K : Kinds) : Type 0 where
  -- `capability.NewPid(0)`, with the effective capabilities that it has.
  pub new_pid : Exec (K.World) (Capability → Bool)
  pub maybe_reexec_using_user_namespace : Bool → K.World → K.World
  -- `c.Help()`
  pub show_help : K.World → K.World
  -- `fmt.Fprintln(os.Stderr, ...)`, whose error no command looks at
  pub print_stderr : Text → K.World → K.World
