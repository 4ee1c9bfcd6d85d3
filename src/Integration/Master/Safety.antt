-- ===== src/Integration/Master/Safety.antt =====
-- What a start of the master that succeeds has seen.
use skopeo.Prelude.{◌≡◌, true, List, arith}
use skopeo.Integration.Master.{
  returned, started, told_open, PortChecker, LogChecker, told_found, Event, State, Run,
}
use skopeo.Integration.Master.Invariant.{
  was_open, was_logged, is_told_open, is_told, Holds, Run-Inv,
}

told_open_of : (p : PortChecker) → is_told_open p ≡ true → p ≡ told_open
told_open_of p h = ground arith

told_found_of : (l : LogChecker) → is_told true l ≡ true → l ≡ told_found true
told_found_of l h = ground arith

started_of :
    {es : List Event} {s : State}
    → Holds es s
    → s.main ≡ returned started
    → (is_told_open s.port ≡ true) × (is_told true s.log ≡ true)
started_of inv e = ground (arith, inv)

-- When `startMaster` returns without a failure, the port was found open and a line of the log had
-- the message, and both goroutines have told so and have returned.
pub start_master-seen :
    {es : List Event} {s : State}
    → Run es s
    → s.main ≡ returned started
    → (was_open es ≡ true)
      × (was_logged es ≡ true)
      × (s.port ≡ told_open)
      × (s.log ≡ told_found true)
start_master-seen {es} {s} r e =
    let inv = Run-Inv r in
    let (p, l) = started_of inv e in
    let port = told_open_of s.port p in
    let log = told_found_of s.log l in (ground (arith, inv), ground (arith, inv), port, log)
