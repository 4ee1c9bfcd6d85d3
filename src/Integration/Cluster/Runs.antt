-- ===== src/Integration/Cluster/Runs.antt =====
-- The processes that the start of a cluster runs, one by one.
use mathlib.Core.Path.{subst}
use skopeo.Prelude.{
  Bool, true, some, Bool-cases, inl, inr, ◌≡◌, refl, sym, ap, ◌∙◌, ℕ, List, [], ◌∷◌, ◌++◌,
}
use skopeo.Prelude.Texts.{Text, lit}
use skopeo.Go.{Exec, Result, ok}
use skopeo.Go.Laws.{step_ok}
use skopeo.External.Lab.{Lab}
use skopeo.Integration.Checks.{assert}
use skopeo.Integration.Fixture.{file_from_fixture}
use skopeo.Go.Strconv.{format_uint}
use skopeo.Integration.Environ.{cluster_environ}
use skopeo.Integration.Master.{Outcome, started, not_found, timed_out}
use skopeo.Integration.Cluster.{Cluster, append_process, cluster_cmd}
use skopeo.Integration.Cluster.Start.{
  Waits, wait_for, started_in_time, launch, start_master, start_registry_process, start_registry,
}

-- The variables of a registry with that address.
abbrev pub registry_env : Text → List (Text × Text)
registry_env url =
    (lit "KUBECONFIG", lit "openshift.local.registry/openshift-registry.kubeconfig")
    ∷ (lit "DOCKER_REGISTRY_URL", url)
    ∷ []

abbrev pub config_path : Text
config_path = lit "/atomic-registry-config.yml"

-- The replacements for the registries with manifests of schema 1 and of schema 2.
abbrev pub schema1_edits : List (Text × Text)
schema1_edits =
    (lit "addr: :5000", lit "addr: :5005")
    ∷ (lit "rootdirectory: /registry", lit "rootdirectory: /registry-schema1")
    ∷ []

abbrev pub schema2_edits : List (Text × Text)
schema2_edits =
    (lit "addr: :5000", lit "addr: :5006")
    ∷ (lit "rootdirectory: /registry", lit "rootdirectory: /registry-schema2")
    ∷ (lit "acceptschema2: false", lit "acceptschema2: true")
    ∷ []

url_5000 : (lit "127.0.0.1:" ++ format_uint 5000) ≡ lit "127.0.0.1:5000"
unfolding lit format_uint
url_5000 = refl

url_5005 : (lit "127.0.0.1:" ++ format_uint 5005) ≡ lit "127.0.0.1:5005"
unfolding lit format_uint
url_5005 = refl

url_5006 : (lit "127.0.0.1:" ++ format_uint 5006) ≡ lit "127.0.0.1:5006"
unfolding lit format_uint
url_5006 = refl

module _ (L : Lab) where
  pub returned_same :
      {A : Type 0} {a b : A} {w w' : L.World}
      → ◌≡◌ {A = Result A × L.World} (ok a, w) (ok b, w')
      → a ≡ b
  returned_same h = cc

  -- The command is that program with those arguments, in that directory and with those variables
  -- on top of the environment; its start succeeded, and then the wait ended as it should.
  pub record Runs (dir : Text) (env : List (Text × Text)) (name : Text) (args : List Text)
      (Waited : L.World → L.World → Type 0) (cmd : L.Cmd) : Type 0 where
    pub made_in : L.World
    pub started_in : L.World
    pub waits_in : L.World
    pub ends_in : L.World
    pub made : cmd ≡ L.command (some dir) (some (cluster_environ (L.environ made_in) env)) name args
    pub starts : L.start cmd started_in ≡ (ok tt, waits_in)
    pub waits : Waited waits_in ends_in

  -- The file is a copy of that one with those replacements.
  pub record Copied (input_path : Text) (edits : List (Text × Text)) (path : Text) : Type 0 where
    pub before : L.World
    pub after : L.World
    pub makes : file_from_fixture L input_path edits before ≡ (ok path, after)

  module _ (W : Waits L) where
    abbrev pub MasterRuns : Text → L.Cmd → Type 0
    MasterRuns dir =
        Runs dir [] (lit "openshift") (lit "start" ∷ lit "master" ∷ [])
          (λ u v. W.master u ≡ (started, v))

    abbrev pub RegistryRuns : Text → ℕ → Text → Text → L.Cmd → Type 0
    RegistryRuns dir port url config =
        Runs dir (registry_env url) (lit "dockerregistry") (config ∷ [])
          (λ u v. W.registry port u ≡ (true, v))

    wait_for_lem :
        {A : Type 0} (wait : L.World → A × L.World) (passes : A → Bool) (u v : L.World)
        → wait_for L W wait passes u ≡ (ok tt, v)
        → (a : A) × (wait u ≡ (a, v)) × (passes a ≡ true)
    wait_for_lem wait passes u v h = elim (Bool-cases (passes (wait u).0)) [
      | inl p ↦
          let e : (wait u).1 ≡ v = cc (rw p at h) in ((wait u).0, ap (λ x. ((wait u).0, x)) e, p)
      | inr p ↦ absurd (cc (rw p at h))
    ]

    started_passes : (o : Outcome) → started_in_time L W o ≡ true → o ≡ started
    started_passes started h = refl
    started_passes not_found h = absurd (cc)
    started_passes timed_out h = absurd (cc)

    launch-Runs :
        {A : Type 0} (pipes : L.Cmd → Exec (L.World) (Unit {0})) (wait : L.World → A × L.World)
        (passes : A → Bool) (a : A)
        → ((x : A) → passes x ≡ true → x ≡ a)
        → (dir : Text) (env : List (Text × Text)) (name : Text) (args : List Text) (w v : L.World)
          {cmd : L.Cmd} {w' : L.World}
        → launch L W pipes
            (wait_for L W wait passes)
            (L.command (some dir) (some (cluster_environ (L.environ v) env)) name args)
            w
          ≡ (ok cmd, w')
        → Runs dir env name args (λ x y. wait x ≡ (a, y)) cmd
    unfolding launch
    launch-Runs pipes wait passes a only dir env name args w v {cmd} {w'} h =
        let made = L.command (some dir) (some (cluster_environ (L.environ v) env)) name args in
        step_ok (pipes made w) _ h λ _ v1 p1 h1. step_ok (L.start made v1) _ h1 λ _ v2 p2 h2.
          step_ok (wait_for L W wait passes v2) _ h2 λ _ v3 p3 h3.
            let (x, waited, passed) = wait_for_lem wait passes v2 v3 p3 in
            let same : made ≡ cmd = returned_same h3 in
            record {
              made_in = v;
              started_in = v1;
              waits_in = v2;
              ends_in = v3;
              made = sym same;
              starts = subst (λ c. L.start c v1 ≡ (ok tt, v2)) same p2;
              waits = waited ∙ ap (λ y. (y, v3)) (only x passed);
            }

    start_registry_process-Runs :
        (cluster : Cluster L) (port : ℕ) (url config : Text) (w : L.World) {cmd : L.Cmd}
        {w' : L.World}
        → (lit "127.0.0.1:" ++ format_uint port) ≡ url
        → start_registry_process L W cluster port config w ≡ (ok cmd, w')
        → RegistryRuns cluster.working_dir port url config cmd
    unfolding start_registry_process cluster_cmd
    start_registry_process-Runs cluster port url config w {cmd} e h =
        subst (λ u. RegistryRuns cluster.working_dir port u config cmd) e
          (launch-Runs _ _ _ true (λ x p. p) cluster.working_dir _ _ _ w w h)

    pub start_master-Runs :
        (cluster cluster' : Cluster L) (w w' : L.World)
        → start_master L W cluster w ≡ (ok cluster', w')
        → (cmd : L.Cmd) × MasterRuns cluster.working_dir cmd
          × (cluster' ≡ append_process L cluster cmd)
    unfolding start_master cluster_cmd
    start_master-Runs cluster cluster' w w' h =
        step_ok (launch L W _ _ (cluster_cmd L cluster [] _ _ w) w) _ h λ cmd v p last. (
          cmd,
          launch-Runs _ _ _ started started_passes cluster.working_dir _ _ _ w w p,
          sym (returned_same last),
        )

    -- The three registries of a start.
    pub record ThreeStarted (cluster cluster' : Cluster L) : Type 0 where
      pub one : L.Cmd
      pub two : L.Cmd
      pub three : L.Cmd
      pub two_config : Text
      pub three_config : Text
      pub one_runs : RegistryRuns cluster.working_dir 5000 (lit "127.0.0.1:5000") config_path one
      pub two_copied : Copied config_path schema1_edits two_config
      pub two_runs : RegistryRuns cluster.working_dir 5005 (lit "127.0.0.1:5005") two_config two
      pub three_copied : Copied config_path schema2_edits three_config
      pub three_runs :
          RegistryRuns cluster.working_dir 5006 (lit "127.0.0.1:5006") three_config three
      pub appended :
          cluster' ≡ append_process L (append_process L (append_process L cluster one) two) three

    pub start_registry-ThreeStarted :
        (cluster cluster' : Cluster L) (w w' : L.World)
        → start_registry L W cluster w ≡ (ok cluster', w')
        → ThreeStarted cluster cluster'
    unfolding start_registry
    start_registry-ThreeStarted cluster cluster' w w' h =
        step_ok (start_registry_process L W cluster _ _ w) _ h λ a v1 p1 h1.
          let cluster1 = append_process L cluster a in
          step_ok (file_from_fixture L _ _ v1) _ h1 λ path1 v2 p2 h2.
            step_ok (L.read_file path1 v2) _ h2 λ text v3 p3 h3.
              step_ok (assert L (L.matches (lit "(?s).*acceptschema2: false.*") text) v3) _ h3
                λ _ v4 p4 h4.
                  step_ok (start_registry_process L W cluster1 _ _ v4) _ h4 λ b v5 p5 h5.
                    step_ok (file_from_fixture L _ _ v5) _ h5 λ path2 v6 p6 h6.
                      step_ok (start_registry_process L W (append_process L cluster1 b) _ _ v6) _ h6
                        λ c v7 p7 h7. record {
                          one = a;
                          two = b;
                          three = c;
                          two_config = path1;
                          three_config = path2;
                          one_runs = start_registry_process-Runs cluster _ _ _ w url_5000 p1;
                          two_copied = record { before = v1; after = v2; makes = p2 };
                          two_runs = start_registry_process-Runs cluster1 _ _ _ v4 url_5005 p5;
                          three_copied = record { before = v5; after = v6; makes = p6 };
                          three_runs =
                              start_registry_process-Runs (append_process L cluster1 b) _ _ _ v6
                                url_5006 p7;
                          appended = sym (returned_same h7);
                        }
