-- ===== src/Integration/Cluster/Start.antt =====
-- integration/openshift.go: the start of the cluster.
use skopeo.Prelude.{ℕ, Bool, true, false, not, List, [], ◌∷◌, ◌++◌}
use skopeo.Prelude.Texts.{Text, lit}
use skopeo.Go.{errorf, Exec, ◌>>=◌, ◌>>◌, pure, reject_if}
use skopeo.Go.Strconv.{format_uint}
use skopeo.External.Lab.{Lab}
use skopeo.Integration.Checks.{assert, consume_and_log_outputs}
use skopeo.Integration.Fixture.{file_from_fixture}
use skopeo.Integration.Master.{Outcome, started, not_found, timed_out}
use skopeo.Integration.Cluster.{
  Cluster, new_cluster, cluster_cmd, with_cmd, append_process, prepare_registry_config,
  oc_login_to_project, relax_image_signer_permissions, docker_login,
}

-- How the waits for threads end: that of `startMaster`, and whether the port of a registry is found
-- open before the time is up.
pub record Waits (L : Lab) : Type 0 where
  pub master : L.World → Outcome × L.World
  pub registry : ℕ → L.World → Bool × L.World

module _ (L : Lab) (W : Waits L) where
  abbrev pub started_in_time : Outcome → Bool
  started_in_time started = true
  started_in_time not_found = false
  started_in_time timed_out = false

  abbrev pub wait_for :
      {A : Type 0} → (L.World → A × L.World) → (A → Bool) → Exec (L.World) (Unit {0})
  wait_for wait passes w =
      let (a, w') = wait w in reject_if (not (passes a)) (errorf "Timed out waiting" []) w'

  -- A command with its pipes is started, and waited for.
  unfoldable pub launch :
      (L.Cmd → Exec (L.World) (Unit {0}))
      → Exec (L.World) (Unit {0})
      → L.Cmd
      → Exec (L.World) (L.Cmd)
  launch pipes wait cmd = do pipes cmd; L.start cmd; wait; pure cmd

  -- The start, with the outcome of its threads. A failure leaves no one with the cluster: the test
  -- ends, and the caller gets nothing.
  unfoldable pub start_master : Cluster L → Exec (L.World) (Cluster L)
  start_master cluster = do
    cmd ←
        with_cmd L (cluster_cmd L cluster [] (lit "openshift") (lit "start" ∷ lit "master" ∷ []))
          (launch (λ c. L.stdout_pipe c) (wait_for (W.master) started_in_time))
    pure (append_process L cluster cmd)

  unfoldable pub start_registry_process : Cluster L → ℕ → Text → Exec (L.World) (L.Cmd)
  start_registry_process cluster port config_path =
      let env : List (Text × Text) =
        (lit "KUBECONFIG", lit "openshift.local.registry/openshift-registry.kubeconfig")
        ∷ (lit "DOCKER_REGISTRY_URL", lit "127.0.0.1:" ++ format_uint port)
        ∷ [] in
      with_cmd L (cluster_cmd L cluster env (lit "dockerregistry") (config_path ∷ []))
        (launch (consume_and_log_outputs L) (wait_for (W.registry port) (λ is_open. is_open)))

  abbrev registry_config : Text
  registry_config = lit "/atomic-registry-config.yml"

  unfoldable pub start_registry : Cluster L → Exec (L.World) (Cluster L)
  unfolding start_registry_process
  start_registry cluster = do
    cmd ← start_registry_process cluster 5000 registry_config
    let cluster = append_process L cluster cmd
    schema1_config ← file_from_fixture L registry_config (
        (lit "addr: :5000", lit "addr: :5005")
        ∷ (lit "rootdirectory: /registry", lit "rootdirectory: /registry-schema1")
        ∷ [])
    config_contents ← L.read_file schema1_config
    assert L (L.matches (lit "(?s).*acceptschema2: false.*") config_contents)
    cmd ← start_registry_process cluster 5005 schema1_config
    let cluster = append_process L cluster cmd
    schema2_config ← file_from_fixture L registry_config (
        (lit "addr: :5000", lit "addr: :5006")
        ∷ (lit "rootdirectory: /registry", lit "rootdirectory: /registry-schema2")
        ∷ (lit "acceptschema2: false", lit "acceptschema2: true")
        ∷ [])
    cmd ← start_registry_process cluster 5006 schema2_config
    pure (append_process L cluster cmd)

  unfoldable pub start_openshift_cluster : Exec (L.World) (Cluster L)
  unfolding start_master start_registry
  start_openshift_cluster = do
    dir ← L.temp_dir [] (lit "openshift-cluster")
    cluster ← start_master (new_cluster L dir)
    prepare_registry_config L cluster
    cluster ← start_registry cluster
    oc_login_to_project L cluster
    cluster ← docker_login L cluster
    relax_image_signer_permissions L cluster
    pure cluster
