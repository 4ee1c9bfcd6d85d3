-- ===== src/Integration/Master.antt =====
-- `startMaster` of integration/openshift.go with the goroutine that it starts, and `newPortChecker` of
-- integration/utils.go with its own: three threads that step in any order. The master process, its
-- log and its port can do anything at any time, and so can the clock.
pub mod Invariant
pub mod Safety
pub mod Progress
use skopeo.Prelude.{
  ◌≡◌, ℕ, zero, suc, ◌+◌, ◌<◌, Bool, true, false, ◌&&◌, ◌||◌, List, [], ◌∷◌, ◌++◌, some, none,
  Option,
}
use skopeo.Prelude.Texts.{Text, lit, contains}

-- How the start ends: `OK, master started!`, or the first or the second `c.Fatal`.
pub data Outcome : Type 0 where
  started not_found timed_out : Outcome

-- Where `startMaster` stands after its last `defer`. The deferred functions run last first: the log
-- checker is told to stop before the port checker is.
pub data Main : Type 0 where
  -- The loop, with `gotPortCheck` and `gotLogCheck`
  waiting : (got_port_check got_log_check : Bool) → Main
  stopping_log : Outcome → Main
  stopping_port : Outcome → Main
  returned : Outcome → Main

-- The goroutine of `newPortChecker`: before its check, at `portOpenBidi <- true`, in its select, and
-- after its two returns.
pub data PortChecker : Type 0 where
  checking sending_open sleeping told_open port_terminated : PortChecker

-- The goroutine of `startMaster`: before `scanner.Scan()`, at a send to `logCheckFound`, in its
-- select, and after its returns.
pub data LogChecker : Type 0 where
  scanning : LogChecker
  sending_found : (found : Bool) → LogChecker
  polling : LogChecker
  told_found : (found : Bool) → LogChecker
  log_terminated : LogChecker

-- What the goroutines find out: whether the port is open, and the lines of the log.
pub data Event : Type 0 where
  checked : (is_open : Bool) → Event
  read_line : (line : Text) → Event
  end_of_log : Event

abbrev pub started_message : Text
started_message = lit "Started Origin Controllers"

-- `make(chan bool, 1)`
abbrev pub capacity : ℕ
capacity = 1

-- A move of the port checker alone. The numbers are the values in `terminateBidi`.
pub data PortMove : PortChecker → ℕ → List Event → PortChecker → ℕ → Type 0 where
  find_open : {n : ℕ} → PortMove checking n (checked true ∷ []) sending_open n
  find_closed : {n : ℕ} → PortMove checking n (checked false ∷ []) sleeping n
  wake : {n : ℕ} → PortMove sleeping n [] checking n
  stop_sleeping : {n : ℕ} → PortMove sleeping (suc n) [] port_terminated n

-- A move of the log checker alone. The numbers are the values in `terminateLogCheck`.
pub data LogMove : LogChecker → ℕ → List Event → LogChecker → ℕ → Type 0 where
  find_message :
      {n : ℕ} (line : Text)
      → contains line started_message ≡ true
      → LogMove scanning n (read_line line ∷ []) (sending_found true) n
  pass_line :
      {n : ℕ} (line : Text)
      → contains line started_message ≡ false
      → LogMove scanning n (read_line line ∷ []) polling n
  find_end : {n : ℕ} → LogMove scanning n (end_of_log ∷ []) (sending_found false) n
  stop_polling : {n : ℕ} → LogMove polling (suc n) [] log_terminated n
  keep_polling : LogMove polling zero [] scanning zero

-- The select of the loop: one goroutine's send is received, or the time is up. The channels have no
-- buffer, so that both threads go on at once.
pub data Select : Main → PortChecker → LogChecker → Main → PortChecker → LogChecker → Type 0 where
  receive_open :
      {gp gl : Bool} {l : LogChecker}
      → gp && gl ≡ false
      → Select (waiting gp gl) sending_open l (waiting true gl) told_open l
  receive_found :
      {gp gl : Bool} {p : PortChecker}
      → gp && gl ≡ false
      → Select (waiting gp gl) p (sending_found true) (waiting gp true) p (told_found true)
  receive_not_found :
      {gp gl : Bool} {p : PortChecker}
      → gp && gl ≡ false
      → Select (waiting gp gl) p (sending_found false) (stopping_log not_found) p (told_found false)
  time_out :
      {gp gl : Bool} {p : PortChecker} {l : LogChecker}
      → gp && gl ≡ false
      → Select (waiting gp gl) p l (stopping_log timed_out) p l

-- The rest of `startMaster` alone: the end of the loop, and the two deferred sends, which wait for
-- room. The numbers are the values in `terminateBidi` and `terminateLogCheck`.
pub data MainMove : Main → ℕ → ℕ → Main → ℕ → ℕ → Type 0 where
  leave_loop : {p l : ℕ} → MainMove (waiting true true) p l (stopping_log started) p l
  stop_log :
      {p l : ℕ} {o : Outcome}
      → l < capacity
      → MainMove (stopping_log o) p l (stopping_port o) p (suc l)
  stop_port :
      {p l : ℕ} {o : Outcome} → p < capacity → MainMove (stopping_port o) p l (returned o) (suc p) l

pub record State : Type 0 where
  pub main : Main
  pub port : PortChecker
  pub log : LogChecker
  pub port_stops : ℕ
  pub log_stops : ℕ

pub data Step (s : State) : List Event → State → Type 0 where
  port_moves :
      {p : PortChecker} {n : ℕ} {es : List Event}
      → PortMove s.port s.port_stops es p n
      → Step s es (record s { port = p; port_stops = n })
  log_moves :
      {l : LogChecker} {n : ℕ} {es : List Event}
      → LogMove s.log s.log_stops es l n
      → Step s es (record s { log = l; log_stops = n })
  selects :
      {m : Main} {p : PortChecker} {l : LogChecker}
      → Select s.main s.port s.log m p l
      → Step s [] (record s { main = m; port = p; log = l })
  main_moves :
      {m : Main} {p l : ℕ}
      → MainMove s.main s.port_stops s.log_stops m p l
      → Step s [] (record s { main = m; port_stops = p; log_stops = l })

-- The process is started, and both goroutines are.
abbrev pub init : State
init = record {
  main = waiting false false;
  port = checking;
  log = scanning;
  port_stops = 0;
  log_stops = 0;
}

-- Steps in a row, with the events, the last one first.
pub data Run : List Event → State → Type 0 where
  begin : Run [] init
  later : {es new : List Event} {s t : State} → Run es s → Step s new t → Run (new ++ es) t
