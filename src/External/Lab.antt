-- ===== src/External/Lab.antt =====
-- What the helpers of the integration tests call: packages os, os/exec, net and net/http, and the
-- library manifest.
use skopeo.Prelude.{ℕ, Bool, List, Option}
use skopeo.Prelude.Texts.{Text}
use skopeo.Go.{GoError, Exec}

pub record Lab : Type 1 where
  pub World : Type 0
  -- *exec.Cmd
  pub Cmd : Type 0
  -- The output of `exec.Command(name, args...).CombinedOutput()`, and the error beside it
  pub combined_output : Text → List Text → World → (Text × Option GoError) × World
  -- The same of a command that was made before
  pub output_of : Cmd → World → (Text × Option GoError) × World
  -- `exec.Command` with a directory and an environment, where they are set
  pub command : Option Text → Option (List Text) → Text → List Text → Cmd
  pub environ : World → List Text
  -- `cmd.StdoutPipe()`, `cmd.StderrPipe()` and `cmd.StdinPipe()`
  pub stdout_pipe : Cmd → Exec World (Unit {0})
  pub stderr_pipe : Cmd → Exec World (Unit {0})
  pub stdin_pipe : Cmd → Exec World (Unit {0})
  pub start : Cmd → Exec World (Unit {0})
  pub write_stdin : Cmd → Text → Exec World (Unit {0})
  pub close_stdin : Cmd → Exec World (Unit {0})
  pub wait : Cmd → Exec World (Unit {0})
  -- `cmd.Process.Kill()`, whose error is not looked at
  pub kill : Cmd → World → World
  pub read_file : Text → Exec World Text
  pub write_file : Text → Text → Exec World (Unit {0})
  pub create : Text → Exec World (Unit {0})
  -- `fmt.Fprintf` to a file that was created
  pub print_to : Text → Text → Exec World (Unit {0})
  pub mkdir : Text → Exec World (Unit {0})
  pub temp_dir : Text → Text → Exec World Text
  pub temp_file : Text → Text → Exec World Text
  pub remove_all : Text → World → World
  pub sleep : ℕ → World → World
  -- The status code of `http.Get`
  pub http_get : Text → Exec World ℕ
  -- `net.DialTCP` to a port of this host
  pub dial : ℕ → Exec World (Unit {0})
  -- Package regexp, and `manifest.GuessMIMEType`
  pub matches : Text → Text → Bool
  pub guess_mime_type : Text → Text
  -- `homedir.Get()` of Docker, and `base64.StdEncoding.EncodeToString`
  pub home : Text
  pub base64 : Text → Text
