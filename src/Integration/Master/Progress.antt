-- ===== src/Integration/Master/Progress.antt =====
-- Which threads of the start of the master can always go on, and which cannot.
use skopeo.Prelude.{◌≡◌, refl, ◌≢◌, ℕ, true, false, Bool, List, arith}
use skopeo.Integration.Master.{
  Outcome, started, timed_out, Main, waiting, stopping_log, stopping_port, returned, PortChecker,
  sending_open, LogChecker, Event, Select, time_out, MainMove, PortMove, find_open, find_closed,
  wake, stop_sleeping, receive_open, receive_found, receive_not_found, leave_loop, stop_log,
  stop_port, State, Step, port_moves, log_moves, selects, main_moves, Run,
}
use skopeo.Integration.Master.Invariant.{Inv, Run-Inv}

-- Steps in a row from any state.
pub data Steps (s : State) : State → Type 0 where
  rest : Steps s s
  then_one : {new : List Event} {t u : State} → Steps s t → Step t new u → Steps s u

-- A way on for the main thread alone, on which it does not wait for a goroutine.
abbrev Way : PortChecker → LogChecker → State → Type 0
Way p l s =
    (o : Outcome) × (t : State) × Steps s t × (t.main ≡ returned o) × (t.port ≡ p) × (t.log ≡ l)

first :
    {s t : State} {new : List Event} {p : PortChecker} {l : LogChecker}
    → Step s new t
    → Way p l t
    → Way p l s
first st (o, u, steps, m, p, l) = (o, u, prefixed st steps, m, p, l)
  where
    prefixed : {s t u : State} {new : List Event} → Step s new t → Steps t u → Steps s u
    prefixed st rest = then_one rest st
    prefixed st (then_one steps last) = then_one (prefixed st steps) last

module _ (p : PortChecker) (l : LogChecker) where
  abbrev at : Main → ℕ → ℕ → State
  at m np nl = record { main = m; port = p; log = l; port_stops = np; log_stops = nl }

  from_port : (o : Outcome) (nl : ℕ) → Way p l (at (stopping_port o) 0 nl)
  from_port o nl =
      first (main_moves (stop_port (omega arith))) (o, at (returned o) 1 nl, rest, refl, refl, refl)

  from_log : (o : Outcome) → Way p l (at (stopping_log o) 0 0)
  from_log o = first (main_moves (stop_log (omega arith))) (from_port o 1)

  from_loop : (gp gl : Bool) → Way p l (at (waiting gp gl) 0 0)
  from_loop true true = first (main_moves leave_loop) (from_log started)
  from_loop true false = first (selects (time_out refl)) (from_log timed_out)
  from_loop false gl = first (selects (time_out refl)) (from_log timed_out)

  -- No value is in a channel before the main thread sends one.
  from_any : {es : List Event} (m : Main) (np nl : ℕ) → Inv es m p l np nl → Way p l (at m np nl)
  from_any (waiting gp gl) np nl inv =
      let np0 : np ≡ 0 = omega (arith, inv) in
      let nl0 : nl ≡ 0 = omega (arith, inv) in rw (np0, nl0) (from_loop gp gl)
  from_any (stopping_log o) np nl inv =
      let np0 : np ≡ 0 = omega (arith, inv) in
      let nl0 : nl ≡ 0 = omega (arith, inv) in rw (np0, nl0) (from_log o)
  from_any (stopping_port o) np nl inv =
      let np0 : np ≡ 0 = omega (arith, inv) in rw np0 (from_port o nl)
  from_any (returned o) np nl inv = (o, at (returned o) np nl, rest, refl, refl, refl)

-- From every reachable state, `startMaster` can return by steps of its own, wherever the goroutines
-- stand: the time can run out in its loop, and its deferred sends never block.
pub start_master-returns :
    {es : List Event} {s : State}
    → Run es s
    → (o : Outcome) × (t : State) × Steps s t
      × (t.main ≡ returned o)
      × (t.port ≡ s.port)
      × (t.log ≡ s.log)
start_master-returns {s} r = from_any s.port s.log s.main s.port_stops s.log_stops (Run-Inv r)

leaves_no_send :
    {p p' : PortChecker} {n n' : ℕ} {es : List Event} → PortMove p n es p' n' → p ≢ sending_open
leaves_no_send find_open = λ e. cc
leaves_no_send find_closed = λ e. cc
leaves_no_send wake = λ e. cc
leaves_no_send stop_sleeping = λ e. cc

selects_in_loop :
    {m m' : Main} {p p' : PortChecker} {l l' : LogChecker} {o : Outcome}
    → Select m p l m' p' l'
    → m ≢ returned o
selects_in_loop (receive_open h) = λ e. cc
selects_in_loop (receive_found h) = λ e. cc
selects_in_loop (receive_not_found h) = λ e. cc
selects_in_loop (time_out h) = λ e. cc

moves_before_return :
    {m m' : Main} {p p' l l' : ℕ} {o : Outcome} → MainMove m p l m' p' l' → m ≢ returned o
moves_before_return leave_loop = λ e. cc
moves_before_return (stop_log h) = λ e. cc
moves_before_return (stop_port h) = λ e. cc

-- After `startMaster` has returned, a port checker at its send stays there for ever.
pub port_checker-blocks :
    {s t : State} {o : Outcome}
    → s.main ≡ returned o
    → s.port ≡ sending_open
    → Steps s t
    → (t.main ≡ returned o) × (t.port ≡ sending_open)
port_checker-blocks m p rest = (m, p)
port_checker-blocks m p (then_one steps st) =
    let (m', p') = port_checker-blocks m p steps in blocked st m' p'
  where
    blocked :
        {s t : State} {new : List Event} {o : Outcome}
        → Step s new t
        → s.main ≡ returned o
        → s.port ≡ sending_open
        → (t.main ≡ returned o) × (t.port ≡ sending_open)
    blocked (port_moves mv) m p = absurd (leaves_no_send mv p)
    blocked (log_moves mv) m p = (m, p)
    blocked (selects mv) m p = absurd (selects_in_loop mv m)
    blocked (main_moves mv) m p = absurd (moves_before_return mv m)
