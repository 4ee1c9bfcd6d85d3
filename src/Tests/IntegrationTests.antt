-- ===== src/Tests/IntegrationTests.antt =====
-- Helpers of the integration tests, over a laboratory whose world is the number of requests that fail
-- before the server is up.
use skopeo.Prelude.{
  ◌++◌, if◌then◌else◌, ◌≡◌, refl, ◌↔◌, ℕ, zero, suc, true, false, some, none, List, [], ◌∷◌, arith,
}
use skopeo.Prelude.Texts.{Text, lit, ◌==◌, has_prefix, contains}
use skopeo.Go.{ok, err, errorf, Result}
use skopeo.External.Lab.{Lab}
use skopeo.Integration.Environ.{modify_environ}
use skopeo.Integration.Environ.Laws.{get_env, get_env-modify_environ}
use skopeo.Integration.Registry.{
  TestRegistryV2, new_test_registry_v2_at, ping, setup_registry_v2_at,
}
use skopeo.Integration.Registry.Laws.{SetUp, setup_registry_v2_at-SetUp}
use skopeo.Integration.Cluster.{Cluster, remove_if_set, tear_down}
use skopeo.Integration.Cluster.Start.{Waits, start_openshift_cluster}
use skopeo.Integration.Cluster.Laws.{FourStarted, start-tear_down}
use skopeo.Integration.Master.{
  Outcome, started, timed_out, returned, sending_open, told_open, told_found, LogChecker, checked,
  read_line, State, port_moves, log_moves, selects, main_moves, find_open, find_message,
  receive_open, receive_found, leave_loop, stop_log, stop_port, time_out, init, Run, begin, later,
}
use skopeo.Integration.Master.Invariant.{was_open, was_logged}
use skopeo.Integration.Master.Safety.{start_master-seen}
use skopeo.Integration.Master.Progress.{Steps, rest, start_master-returns, port_checker-blocks}

abbrev environment : List Text
environment = lit "HOME=/root" ∷ lit "KUBECONFIG=a" ∷ lit "HOMES=b" ∷ []

get_env-modify_environ_example :
    get_env (lit "HOME") (modify_environ environment (lit "KUBECONFIG") (lit "b"))
    ≡ some (lit "/root")
unfolding has_prefix ◌==◌ lit skopeo.Prelude.Texts.drop_prefix
get_env-modify_environ_example =
    get_env-modify_environ environment (lit "KUBECONFIG") (lit "b") (lit "HOME") (ground arith)
      (ground arith)

abbrev get_status : ℕ → Result ℕ × ℕ
get_status zero = (ok 200, 0)
get_status (suc n) = (err (errorf "connection refused" []), n)

abbrev lab : Lab
lab = record {
  World = ℕ;
  Cmd = Text;
  combined_output = λ name args w. (([], none), w);
  output_of = λ cmd w. (([], none), w);
  command = λ dir env name args. name;
  environ = λ w. [];
  stdout_pipe = λ cmd w. (ok tt, w);
  stderr_pipe = λ cmd w. (ok tt, w);
  stdin_pipe = λ cmd w. (ok tt, w);
  start = λ cmd w. (ok tt, w);
  write_stdin = λ cmd s w. (ok tt, w);
  close_stdin = λ cmd w. (ok tt, w);
  wait = λ cmd w. (ok tt, w);
  kill = λ cmd w. w;
  read_file = λ path w. (ok [], w);
  write_file = λ path s w. (ok tt, w);
  create = λ path w. (ok tt, w);
  print_to = λ path s w. (ok tt, w);
  mkdir = λ path w. (ok tt, w);
  temp_dir = λ dir pattern w. (ok (lit "/tmp/1"), w);
  temp_file = λ dir pattern w. (ok (lit "/tmp/1"), w);
  remove_all = λ path w. w;
  sleep = λ n w. w;
  http_get = λ url. get_status;
  dial = λ port w. (ok tt, w);
  matches = λ regexp s. true;
  guess_mime_type = λ s. s;
  home = lit "/root";
  base64 = λ s. s;
}

abbrev registry : TestRegistryV2 lab
registry = record {
  cmd = lit "registry-v2";
  url = lit "localhost:5000";
  dir = lit "/tmp/1";
  username = [];
  password = [];
  email = [];
}

fourth_ping : setup_registry_v2_at lab (lit "localhost:5000") false false 3 ≡ (ok registry, 0)
unfolding setup_registry_v2_at new_test_registry_v2_at
    skopeo.Integration.Checks.consume_and_log_outputs skopeo.Integration.Registry.ping_loop ping
fourth_ping = refl

-- The server answers the fourth request.
setup_registry_v2_at-SetUp_example :
    SetUp lab
      (lit "localhost:5000")
      false
      false
      3
      (setup_registry_v2_at lab (lit "localhost:5000") false false 3)
setup_registry_v2_at-SetUp_example =
    setup_registry_v2_at-SetUp lab (lit "localhost:5000") false false 3

abbrev message : Text
message = lit "Started Origin Controllers"

message_found : contains message message ≡ true
unfolding contains has_prefix lit
message_found = refl

abbrev at_open : State
at_open = record init { port = sending_open }

open_found : Run (checked true ∷ []) at_open
open_found = later begin (port_moves find_open)

abbrev both_found : State
both_found = record {
  main = returned started;
  port = told_open;
  log = told_found true;
  port_stops = 1;
  log_stops = 1;
}

good_start : Run (read_line message ∷ checked true ∷ []) both_found
good_start =
    later
      (later
        (later
          (later
            (later (later open_found (selects (receive_open refl)))
              (log_moves (find_message message message_found)))
            (selects (receive_found refl)))
          (main_moves leave_loop))
        (main_moves (stop_log (omega arith))))
      (main_moves (stop_port (omega arith)))

start_master-seen_example :
    (was_open (read_line message ∷ checked true ∷ []) ≡ true)
    × (was_logged (read_line message ∷ checked true ∷ []) ≡ true)
    × (both_found.port ≡ told_open)
    × (both_found.log ≡ told_found true)
start_master-seen_example = start_master-seen good_start refl

start_master-returns_example :
    (o : Outcome) × (t : State) × Steps at_open t
    × (t.main ≡ returned o)
    × (t.port ≡ sending_open)
    × (t.log ≡ LogChecker.scanning)
start_master-returns_example = start_master-returns open_found

-- The time runs out while the port checker is at its send.
abbrev too_late : State
too_late = record at_open { main = returned timed_out; port_stops = 1; log_stops = 1 }

late_start : Run (checked true ∷ []) too_late
late_start =
    later (later (later open_found (selects (time_out refl))) (main_moves (stop_log (omega arith))))
      (main_moves (stop_port (omega arith)))

port_checker-blocks_example : (too_late.main ≡ returned timed_out) × (too_late.port ≡ sending_open)
port_checker-blocks_example = port_checker-blocks {s = too_late} refl refl rest

-- A laboratory in which the commands of the cluster answer as they should.
abbrev all_args : List Text → Text
all_args [] = []
all_args (s ∷ ss) = lit " " ++ s ++ all_args ss

abbrev cluster_lab : Lab
cluster_lab = record lab {
  command = λ dir env name args. name ++ all_args args;
  output_of = λ cmd w. (
    (
      if contains cmd (lit "system:registry")
          then lit "cluster role \"system:registry\" added: \"registry\"\n"
          else if contains cmd (lit "system:image-signer")
          then lit "cluster role \"system:image-signer\" added: \"system:authenticated\"\n"
          else [],
      none,
    ),
    w,
  );
  read_file = λ path w. (ok (lit "addr: :5000, rootdirectory: /registry, acceptschema2: false"), w);
  kill = λ cmd w. suc w;
}

abbrev waits : Waits cluster_lab
waits = record { master = λ w. (started, w); registry = λ port w. (true, w) }

unfoldable running : Cluster cluster_lab
running = record {
  working_dir = lit "/tmp/1";
  docker_dir = lit "/root/.docker";
  processes =
      lit "openshift start master"
      ∷ lit "dockerregistry /atomic-registry-config.yml"
      ∷ lit "dockerregistry /tmp/1"
      ∷ lit "dockerregistry /tmp/1"
      ∷ [];
}

cluster_started : start_openshift_cluster cluster_lab waits 0 ≡ (ok running, 0)
unfolding start_openshift_cluster running skopeo.Integration.Cluster.prepare_registry_config
    skopeo.Integration.Checks.run_exec_cmd_with_input ◌==◌ contains lit
    skopeo.Integration.Fixture.file_from_fixture skopeo.Integration.Fixture.replace_all
    skopeo.Integration.Cluster.oc_login_to_project
    skopeo.Integration.Checks.combined_output_of_command skopeo.Integration.Cluster.docker_login
    skopeo.Integration.Cluster.relax_image_signer_permissions skopeo.Go.Path.join
    skopeo.Go.Path.clean skopeo.Go.Path.join_elements skopeo.Go.Path.clean_elements
    skopeo.Go.Path.elements skopeo.Integration.Cluster.Start.launch
cluster_started = refl

start-tear_down_example :
    (f : FourStarted cluster_lab waits 0 running) × (tear_down cluster_lab running 7
      ≡ remove_if_set cluster_lab running.docker_dir (
          remove_if_set cluster_lab running.working_dir (
            cluster_lab.kill f.master (
              cluster_lab.kill f.primary
                (cluster_lab.kill f.schema1 (cluster_lab.kill f.schema2 7))))))
start-tear_down_example = start-tear_down cluster_lab waits running 0 0 7 cluster_started
