-- ===== src/Integration/Cluster/Laws.antt =====
-- The processes of the cluster, and their end.
use mathlib.Core.Path.{subst}
use skopeo.Prelude.{◌≡◌, refl, sym, ap, ◌∙◌, ℕ, zero, suc, List, [], ◌∷◌, ◌++◌}
use skopeo.Prelude.Texts.{Text, lit}
use skopeo.Go.{ok}
use skopeo.Go.Laws.{step_ok}
use skopeo.External.Lab.{Lab}
use skopeo.Integration.Checks.{combined_output_of_command}
use skopeo.Integration.Cluster.{
  Cluster, kill_processes, count, remove_if_set, append_process, new_cluster, tear_down,
  prepare_registry_config, oc_login_to_project, relax_image_signer_permissions, docker_login,
}
use skopeo.Integration.Cluster.Runs.{
  returned_same, MasterRuns, RegistryRuns, Copied, config_path, schema1_edits, schema2_edits,
  ThreeStarted, start_master-Runs, start_registry-ThreeStarted,
}
use skopeo.Integration.Cluster.Start.{Waits, start_master, start_registry, start_openshift_cluster}

module _ (L : Lab) where
  -- Every process, the last one first.
  abbrev killed : List (L.Cmd) → L.World → L.World
  killed [] w = w
  killed (p ∷ ps) w = L.kill p (killed ps w)

  kill_processes_after :
      (p : L.Cmd) (ps : List (L.Cmd)) (i : ℕ) (w : L.World)
      → kill_processes L (p ∷ ps) (suc i) w ≡ L.kill p (kill_processes L ps i w)
  unfolding kill_processes
  kill_processes_after p ps zero w = refl
  kill_processes_after p ps (suc i) w = kill_processes_after p ps i _

  kill_processes-killed :
      (ps : List (L.Cmd)) (w : L.World) → kill_processes L ps (count L ps) w ≡ killed ps w
  unfolding kill_processes count
  kill_processes-killed [] w = refl
  kill_processes-killed (p ∷ ps) w =
      kill_processes_after p ps (count L ps) w ∙ ap (L.kill p) (kill_processes-killed ps w)

  tear_down-killed :
      (cluster : Cluster L) (w : L.World)
      → tear_down L cluster w
        ≡ remove_if_set L cluster.docker_dir
            (remove_if_set L cluster.working_dir (killed cluster.processes w))
  unfolding tear_down
  tear_down-killed cluster w =
      ap (λ v. remove_if_set L cluster.docker_dir (remove_if_set L cluster.working_dir v))
        (kill_processes-killed cluster.processes w)

  module _ (W : Waits L) where
    -- The processes of a cluster that was started in the world `w`, in order.
    pub record FourStarted (w : L.World) (cluster : Cluster L) : Type 0 where
      pub later : L.World
      pub makes_dir : L.temp_dir [] (lit "openshift-cluster") w ≡ (ok cluster.working_dir, later)
      pub master : L.Cmd
      pub primary : L.Cmd
      pub schema1 : L.Cmd
      pub schema2 : L.Cmd
      pub listed : cluster.processes ≡ master ∷ primary ∷ schema1 ∷ schema2 ∷ []
      pub master_runs : MasterRuns L W cluster.working_dir master
      pub primary_runs :
          RegistryRuns L W cluster.working_dir 5000 (lit "127.0.0.1:5000") config_path primary
      pub schema1_config : Text
      pub schema1_copied : Copied L config_path schema1_edits schema1_config
      pub schema1_runs :
          RegistryRuns L W cluster.working_dir 5005 (lit "127.0.0.1:5005") schema1_config schema1
      pub schema2_config : Text
      pub schema2_copied : Copied L config_path schema2_edits schema2_config
      pub schema2_runs :
          RegistryRuns L W cluster.working_dir 5006 (lit "127.0.0.1:5006") schema2_config schema2

    docker_login-eq-ok :
        (cluster cluster' : Cluster L) (w w' : L.World)
        → docker_login L cluster w ≡ (ok cluster', w')
        → (cluster'.processes ≡ cluster.processes) × (cluster'.working_dir ≡ cluster.working_dir)
    unfolding docker_login
    docker_login-eq-ok cluster cluster' w w' h = step_ok (L.mkdir _ w) _ h λ _ v1 p1 h1.
        step_ok (combined_output_of_command L _ _ v1) _ h1 λ out v2 p2 h2.
          step_ok (L.write_file _ _ v2) _ h2 λ _ v3 p3 h3.
            let same = sym (returned_same L h3) in
            (ap (λ (x : Cluster L). x.processes) same, ap (λ (x : Cluster L). x.working_dir) same)

    -- The processes of a cluster, from those that its parts started.
    four_of :
        (dir : Text) (w later : L.World) (c1 c2 cluster : Cluster L) (m : L.Cmd)
        → L.temp_dir [] (lit "openshift-cluster") w ≡ (ok dir, later)
        → MasterRuns L W dir m
        → c1 ≡ append_process L (new_cluster L dir) m
        → ThreeStarted L W c1 c2
        → cluster.processes ≡ c2.processes
        → cluster.working_dir ≡ c2.working_dir
        → FourStarted w cluster
    four_of dir w later c1 c2 cluster m made m_runs e three same same_dir =
        let in_c1 : c1.working_dir ≡ dir = ap (λ (x : Cluster L). x.working_dir) e in
        let in_c2 : c1.working_dir ≡ cluster.working_dir =
          sym (same_dir ∙ ap (λ (x : Cluster L). x.working_dir) three.appended) in
        let in_dir : dir ≡ cluster.working_dir = sym in_c1 ∙ in_c2 in
        record {
          later = later;
          makes_dir = made ∙ ap (λ d. (ok d, later)) in_dir;
          master = m;
          primary = three.one;
          schema1 = three.two;
          schema2 = three.three;
          listed =
              same
              ∙ ap (λ (x : Cluster L). x.processes) three.appended
              ∙ ap
                  (λ (x : Cluster L).
                    ((x.processes ++ three.one ∷ []) ++ three.two ∷ []) ++ three.three ∷ [])
                  e;
          master_runs = subst (λ d. MasterRuns L W d m) in_dir m_runs;
          primary_runs =
              subst (λ d. RegistryRuns L W d 5000 (lit "127.0.0.1:5000") config_path three.one)
                in_c2 three.one_runs;
          schema1_config = three.two_config;
          schema1_copied = three.two_copied;
          schema1_runs =
              subst (λ d. RegistryRuns L W d 5005 (lit "127.0.0.1:5005") three.two_config three.two)
                in_c2 three.two_runs;
          schema2_config = three.three_config;
          schema2_copied = three.three_copied;
          schema2_runs =
              subst
                (λ d. RegistryRuns L W d 5006 (lit "127.0.0.1:5006") three.three_config three.three)
                in_c2 three.three_runs;
        }

    start_openshift_cluster-FourStarted :
        (cluster : Cluster L) (w w' : L.World)
        → start_openshift_cluster L W w ≡ (ok cluster, w')
        → FourStarted w cluster
    unfolding start_openshift_cluster
    start_openshift_cluster-FourStarted cluster w w' h =
        step_ok (L.temp_dir _ _ w) _ h λ dir v1 p1 h1.
          step_ok (start_master L W (new_cluster L dir) v1) _ h1 λ c1 v2 p2 h2.
            step_ok (prepare_registry_config L c1 v2) _ h2 λ _ v3 p3 h3.
              step_ok (start_registry L W c1 v3) _ h3 λ c2 v4 p4 h4.
                step_ok (oc_login_to_project L c2 v4) _ h4 λ _ v5 p5 h5.
                  step_ok (docker_login L c2 v5) _ h5 λ c3 v6 p6 h6.
                    step_ok (relax_image_signer_permissions L c3 v6) _ h6 λ _ v7 p7 h7.
                      let (m, m_runs, made) =
                        start_master-Runs L W (new_cluster L dir) c1 v1 v2 p2 in
                      let three = start_registry-ThreeStarted L W c1 c2 v3 v4 p4 in
                      let (same, same_dir) = docker_login-eq-ok c2 c3 v5 v6 p6 in
                      let last : cluster ≡ c3 = sym (returned_same L h7) in
                      four_of dir w v1 c1 c2 cluster m p1 m_runs made three
                        (ap (λ (x : Cluster L). x.processes) last ∙ same)
                        (ap (λ (x : Cluster L). x.working_dir) last ∙ same_dir)

    -- A start of the cluster that succeeds lists four processes, in this order: `openshift start
    -- master`; `dockerregistry` with the common configuration, for port 5000; and `dockerregistry`
    -- with copies of it for schema 1 and for schema 2, for the ports 5005 and 5006. Each was made in
    -- the new directory of the cluster with its own variables, was started, and was waited for with
    -- success. When `tearDown` ends them, the last one of the list is killed first; then the
    -- directories of the cluster are removed, those that are set.
    pub start-tear_down :
        (cluster : Cluster L) (w w' later : L.World)
        → start_openshift_cluster L W w ≡ (ok cluster, w')
        → (f : FourStarted w cluster) × (tear_down L cluster later
            ≡ remove_if_set L cluster.docker_dir (
                remove_if_set L cluster.working_dir
                  (L.kill f.master (L.kill f.primary (L.kill f.schema1 (L.kill f.schema2 later))))))
    start-tear_down cluster w w' later h =
        let f = start_openshift_cluster-FourStarted cluster w w' h in
        (
          f,
          tear_down-killed cluster later
              ∙ ap
                  (λ ps.
                    remove_if_set L cluster.docker_dir
                      (remove_if_set L cluster.working_dir (killed ps later)))
                  f.listed,
        )
