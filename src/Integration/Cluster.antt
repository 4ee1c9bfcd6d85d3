-- ===== src/Integration/Cluster.antt =====
-- integration/openshift.go: the cluster of the tests, step by step. The threads of `startMaster` are in
-- Integration/Master.antt.
pub mod Start
pub mod Runs
pub mod Laws
use skopeo.Prelude.{ℕ, zero, suc, Bool, true, false, not, some, List, [], ◌∷◌, ◌++◌, if◌then◌else◌}
use skopeo.Prelude.Texts.{Text, lit, ◌==◌, is_blank}
use skopeo.Go.{errorf, Exec, ◌>>=◌, ◌>>◌, pure, reject_if}
use skopeo.Go.Path.{join}
use skopeo.Go.Strconv.{format_uint}
use skopeo.External.Lab.{Lab}
use skopeo.Integration.Checks.{
  assert, observe, is_nil, matches_all, combined_output_of_command, run_exec_cmd_with_input,
}
use skopeo.Integration.Environ.{cluster_environ}
use skopeo.Integration.Fixture.{file_from_fixture}
use skopeo.Integration.Master.{Outcome, started, not_found, timed_out}

-- `openshiftCluster`
pub record Cluster (L : Lab) : Type 0 where
  pub working_dir : Text
  pub docker_dir : Text
  pub processes : List (L.Cmd)

-- `&openshiftCluster{}` with its `workingDir`
abbrev pub new_cluster : (L : Lab) → Text → Cluster L
new_cluster L dir = record { working_dir = dir; docker_dir = []; processes = [] }

-- `adminKUBECONFIG`
abbrev admin_kubeconfig : List (Text × Text)
admin_kubeconfig = (lit "KUBECONFIG", lit "openshift.local.config/master/admin.kubeconfig") ∷ []

module _ (L : Lab) where
  unfoldable pub cluster_cmd : Cluster L → List (Text × Text) → Text → List Text → L.World → L.Cmd
  cluster_cmd cluster env name args w =
      L.command (some cluster.working_dir) (some (cluster_environ (L.environ w) env)) name args

  -- A command is made, and used.
  abbrev pub with_cmd :
      {A : Type 0} → (L.World → L.Cmd) → (L.Cmd → Exec (L.World) A) → Exec (L.World) A
  with_cmd make use_it w = use_it (make w) w

  -- `cmd.CombinedOutput()` and the checks of its error and its text
  abbrev pub output_passes : (Text → Bool) → L.Cmd → Exec (L.World) (Unit {0})
  output_passes passes cmd = do
    answer ← observe L (L.output_of cmd)
    assert L (is_nil L answer.1)
    assert L (passes answer.0)

  abbrev pub append_process : Cluster L → L.Cmd → Cluster L
  append_process cluster cmd = record cluster { processes = cluster.processes ++ cmd ∷ [] }

  unfoldable pub prepare_registry_config : Cluster L → Exec (L.World) (Unit {0})
  unfolding cluster_cmd
  prepare_registry_config cluster = do
    with_cmd
        (cluster_cmd cluster admin_kubeconfig (lit "oc") (lit "create" ∷ lit "-f" ∷ lit "-" ∷ []))
        (λ cmd. run_exec_cmd_with_input L cmd (
          lit
            "{\n\t\t\"apiVersion\": \"v1\",\n\t\t\"kind\": \"ServiceAccount\",\n\t\t\"metadata\": {\n\t\t\t\"name\": \"registry\"\n\t\t}\n\t}"))
    with_cmd
        (cluster_cmd cluster admin_kubeconfig (lit "oadm") (
          lit "policy"
          ∷ lit "add-cluster-role-to-user"
          ∷ lit "system:registry"
          ∷ lit "-z"
          ∷ lit "registry"
          ∷ []))
        (output_passes (λ out. out == lit "cluster role \"system:registry\" added: \"registry\"\n"))
    with_cmd
        (cluster_cmd cluster admin_kubeconfig (lit "oadm") (
          lit "create-api-client-config"
          ∷ lit "--client-dir=openshift.local.registry"
          ∷ lit "--basename=openshift-registry"
          ∷ lit "--user=system:serviceaccount:default:registry"
          ∷ []))
        (output_passes is_blank)

  unfoldable pub oc_login_to_project : Cluster L → Exec (L.World) (Unit {0})
  unfolding cluster_cmd
  oc_login_to_project cluster = do
    with_cmd
        (cluster_cmd cluster [] (lit "oc") (
          lit "login"
          ∷ lit "--certificate-authority=openshift.local.config/master/ca.crt"
          ∷ lit "-u"
          ∷ lit "myuser"
          ∷ lit "-p"
          ∷ lit "mypw"
          ∷ lit "https://localhost:8443"
          ∷ []))
        (output_passes (λ out. matches_all L out (lit ".*Login successful.*")))
    out ← combined_output_of_command L (lit "oc") (lit "new-project" ∷ lit "myns" ∷ [])
    assert L (matches_all L out (lit ".*Now using project \"myns\".*"))

  unfoldable pub relax_image_signer_permissions : Cluster L → Exec (L.World) (Unit {0})
  unfolding cluster_cmd
  relax_image_signer_permissions cluster =
      with_cmd
        (cluster_cmd cluster admin_kubeconfig (lit "oadm") (
          lit "policy"
          ∷ lit "add-cluster-role-to-group"
          ∷ lit "system:image-signer"
          ∷ lit "system:authenticated"
          ∷ []))
        (output_passes (λ out.
          out == lit "cluster role \"system:image-signer\" added: \"system:authenticated\"\n"))

  -- The entry of a port in `auths`, and `strings.Join(auths, ",")`.
  abbrev auth_entry : Text → ℕ → Text
  auth_entry auth_value port =
      lit "\"localhost:"
      ++ format_uint port
      ++ lit "\": {\n\t\t\t\t\"auth\": \""
      ++ auth_value
      ++ lit "\",\n\t\t\t\t\"email\": \"unused\"\n\t\t\t}"

  abbrev auths : Text → Text
  auths auth_value =
      auth_entry auth_value 5000
      ++ lit ","
      ++ auth_entry auth_value 5005
      ++ lit ","
      ++ auth_entry auth_value 5006

  unfoldable pub docker_login : Cluster L → Exec (L.World) (Cluster L)
  docker_login cluster = do
    let docker_dir = join (L.home) (lit ".docker")
    L.mkdir docker_dir
    out ← combined_output_of_command L (lit "oc") (
        lit "config"
        ∷ lit "view"
        ∷ lit "-o"
        ∷ lit "json"
        ∷ lit "-o"
        ∷ lit "jsonpath={.users[*].user.token}"
        ∷ [])
    let auth_value = L.base64 (lit "unused:" ++ out)
    L.write_file (join docker_dir (lit "config.json"))
        (lit "{\"auths\": {" ++ auths auth_value ++ lit "}}")
    pure (record cluster { docker_dir = docker_dir })

  -- The loop of `tearDown`, before the process with index `i - 1`.
  pub kill_processes : List (L.Cmd) → ℕ → L.World → L.World
  kill_processes processes zero w = w
  kill_processes processes (suc i) w = kill_processes processes i (kill_at processes i w)
    where
      kill_at : List (L.Cmd) → ℕ → L.World → L.World
      kill_at [] i w = w
      kill_at (p ∷ ps) zero w = L.kill p w
      kill_at (p ∷ ps) (suc i) w = kill_at ps i w

  pub count : List (L.Cmd) → ℕ
  count [] = 0
  count (p ∷ ps) = suc (count ps)

  abbrev pub remove_if_set : Text → L.World → L.World
  remove_if_set dir w = if is_blank dir then w else L.remove_all dir w

  unfoldable pub tear_down : Cluster L → L.World → L.World
  unfolding kill_processes count
  tear_down cluster w = remove_if_set cluster.docker_dir (
      remove_if_set cluster.working_dir
        (kill_processes cluster.processes (count cluster.processes) w))
