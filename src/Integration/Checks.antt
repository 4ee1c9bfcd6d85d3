-- ===== src/Integration/Checks.antt =====
-- integration/utils.go: running commands and checking what they do. A check that fails ends the test,
-- so that it is an error here.
use skopeo.Prelude.{
  ℕ, Bool, true, false, not, Option, none, some, List, [], ◌∷◌, ◌++◌, if◌then◌else◌,
}
use skopeo.Prelude.Texts.{Text, lit, ◌==◌, is_blank}
use skopeo.Go.{GoError, ok, err, errorf, Exec, ◌>>=◌, ◌>>◌, pure, reject_if}
use skopeo.Go.Path.{join}
use skopeo.External.Lab.{Lab}

module _ (L : Lab) where
  -- `c.Assert(err, check.IsNil)` and `c.Assert(err, check.NotNil)`
  abbrev pub is_nil : Option GoError → Bool
  is_nil none = true
  is_nil (some e) = false

  abbrev pub assert : Bool → Exec (L.World) (Unit {0})
  assert b = reject_if (not b) (errorf "the check failed" [])

  abbrev pub observe :
      (L.World → (Text × Option GoError) × L.World) → Exec (L.World) (Text × Option GoError)
  observe m w = let (r, w') = m w in (ok r, w')

  unfoldable pub combined_output_of_command : Text → List Text → Exec (L.World) Text
  combined_output_of_command name args = do
    answer ← observe (L.combined_output name args)
    assert (is_nil answer.1)
    pure answer.0

  -- `(?s)` before the expression
  abbrev pub matches_all : Text → Text → Bool
  matches_all out regexp = L.matches (lit "(?s)" ++ regexp) out

  unfoldable pub assert_skopeo_succeeds : Text → List Text → Exec (L.World) (Unit {0})
  assert_skopeo_succeeds regexp args = do
    answer ← observe (L.combined_output (lit "skopeo") args)
    assert (is_nil answer.1)
    (if is_blank regexp then pure tt else assert (matches_all answer.0 regexp))

  unfoldable pub assert_skopeo_fails : Text → List Text → Exec (L.World) (Unit {0})
  assert_skopeo_fails regexp args = do
    answer ← observe (L.combined_output (lit "skopeo") args)
    assert (not (is_nil answer.1))
    assert (matches_all answer.0 regexp)

  -- The threads that read from the pipes only log what they read.
  unfoldable pub consume_and_log_outputs : L.Cmd → Exec (L.World) (Unit {0})
  consume_and_log_outputs cmd = do L.stdout_pipe cmd; L.stderr_pipe cmd

  unfoldable pub run_exec_cmd_with_input : L.Cmd → Text → Exec (L.World) (Unit {0})
  unfolding consume_and_log_outputs
  run_exec_cmd_with_input cmd input = do
    consume_and_log_outputs cmd
    L.stdin_pipe cmd
    L.start cmd
    L.write_stdin cmd input
    L.close_stdin cmd
    L.wait cmd

  unfoldable pub run_command_with_input : Text → Text → List Text → Exec (L.World) (Unit {0})
  unfolding run_exec_cmd_with_input
  run_command_with_input input name args =
      run_exec_cmd_with_input (L.command none none name args) input

  -- `isPortOpen`
  unfoldable pub is_port_open : ℕ → L.World → Bool × L.World
  is_port_open port w = let (r, w') = L.dial port w in (elim r [ ok _ ↦ true | err _ ↦ false ], w')

  read_manifests : List Text → Exec (L.World) (Unit {0})
  read_manifests [] = pure tt
  read_manifests (dir ∷ dirs) = do L.read_file (join dir (lit "manifest.json")); read_manifests dirs

  unfoldable pub run_decompress_dirs : Text → List Text → Exec (L.World) (Unit {0})
  unfolding read_manifests
  run_decompress_dirs regexp args = do
    read_manifests args
    answer ← observe (L.combined_output (lit "./decompress-dirs.sh") args)
    assert (is_nil answer.1)
    read_manifests args
    (if is_blank regexp then pure tt else assert (matches_all answer.0 regexp))

  unfoldable pub verify_manifest_mime_type : Text → Text → Exec (L.World) (Unit {0})
  verify_manifest_mime_type dir expected = do
    manifest_blob ← L.read_file (join dir (lit "manifest.json"))
    assert (L.guess_mime_type manifest_blob == expected)
