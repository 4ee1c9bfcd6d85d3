-- ===== src/Integration/Master/Invariant.antt =====
-- What holds in every reachable state of the start of the master.
use skopeo.Prelude.{◌≡◌, refl, ℕ, ◌+◌, Bool, true, false, ◌||◌, List, [], ◌∷◌, ◌++◌, arith}
use skopeo.Prelude.Texts.{contains}
use skopeo.Integration.Master.{
  Outcome, started, not_found, timed_out, Main, waiting, stopping_log, stopping_port, returned,
  PortChecker, sending_open, told_open, port_terminated, LogChecker, sending_found, told_found,
  log_terminated, Event, checked, read_line, started_message, PortMove, find_open, find_closed,
  wake, stop_sleeping, LogMove, find_message, pass_line, find_end, stop_polling, keep_polling,
  Select, receive_open, receive_found, receive_not_found, time_out, MainMove, leave_loop, stop_log,
  stop_port, State, Step, port_moves, log_moves, selects, main_moves, Run, begin, later,
}

-- Whether the port was found open, and whether the log had the message.
abbrev pub was_open : List Event → Bool
was_open [] = false
was_open (checked b ∷ es) = b || was_open es
was_open (_ ∷ es) = was_open es

abbrev pub was_logged : List Event → Bool
was_logged [] = false
was_logged (read_line line ∷ es) = contains line started_message || was_logged es
was_logged (_ ∷ es) = was_logged es

abbrev claims_open : PortChecker → Bool
claims_open sending_open = true
claims_open told_open = true
claims_open _ = false

abbrev claims_found : LogChecker → Bool
claims_found (sending_found b) = b
claims_found (told_found b) = b
claims_found _ = false

-- How many values were sent to stop each goroutine, and how many it has taken.
abbrev port_sent : Main → ℕ
port_sent (returned _) = 1
port_sent _ = 0

abbrev log_sent : Main → ℕ
log_sent (returned _) = 1
log_sent (stopping_port _) = 1
log_sent _ = 0

abbrev port_taken : PortChecker → ℕ
port_taken port_terminated = 1
port_taken _ = 0

abbrev log_taken : LogChecker → ℕ
log_taken log_terminated = 1
log_taken _ = 0

abbrev pub is_told_open : PortChecker → Bool
is_told_open told_open = true
is_told_open _ = false

abbrev pub is_told : Bool → LogChecker → Bool
is_told true (told_found true) = true
is_told false (told_found false) = true
is_told _ _ = false

-- What the main thread knows is what the goroutines have told it: that the port is open, that the
-- message is there, that it is not.
abbrev Ends : Outcome → Bool → Bool → Bool → Type 0
Ends started ready found missed = (ready ≡ true) × (found ≡ true)
Ends not_found ready found missed = missed ≡ true
Ends timed_out ready found missed = Unit

abbrev Knows : Main → Bool → Bool → Bool → Type 0
Knows (waiting gp gl) ready found missed = (gp ≡ ready) × (gl ≡ found) × (missed ≡ false)
Knows (stopping_log o) ready found missed = Ends o ready found missed
Knows (stopping_port o) ready found missed = Ends o ready found missed
Knows (returned o) ready found missed = Ends o ready found missed

pub record Inv (es : List Event) (m : Main) (p : PortChecker) (l : LogChecker) (np nl : ℕ)
    : Type 0 where
  pub seen_open : claims_open p ≡ true → was_open es ≡ true
  pub seen_message : claims_found l ≡ true → was_logged es ≡ true
  pub port_once : np + port_taken p ≡ port_sent m
  pub log_once : nl + log_taken l ≡ log_sent m
  pub knows : Knows m (is_told_open p) (is_told true l) (is_told false l)

module _ {es : List Event} where
  PortMove-Inv :
      {m : Main} {p p' : PortChecker} {l : LogChecker} {np np' nl : ℕ} {new : List Event}
      → PortMove p np new p' np'
      → Inv es m p l np nl
      → Inv (new ++ es) m p' l np' nl
  PortMove-Inv find_open inv = ground (arith, inv)
  PortMove-Inv find_closed inv = ground (arith, inv)
  PortMove-Inv wake inv = ground (arith, inv)
  PortMove-Inv stop_sleeping inv = ground (arith, inv)

  LogMove-Inv :
      {m : Main} {p : PortChecker} {l l' : LogChecker} {np nl nl' : ℕ} {new : List Event}
      → LogMove l nl new l' nl'
      → Inv es m p l np nl
      → Inv (new ++ es) m p l' np nl'
  LogMove-Inv (find_message line h) inv = ground (arith, inv)
  LogMove-Inv (pass_line line h) inv = ground (arith, inv)
  LogMove-Inv find_end inv = ground (arith, inv)
  LogMove-Inv stop_polling inv = ground (arith, inv)
  LogMove-Inv keep_polling inv = ground (arith, inv)

  Select-Inv :
      {m m' : Main} {p p' : PortChecker} {l l' : LogChecker} {np nl : ℕ}
      → Select m p l m' p' l'
      → Inv es m p l np nl
      → Inv es m' p' l' np nl
  Select-Inv (receive_open h) inv = ground (arith, inv)
  Select-Inv (receive_found h) inv = ground (arith, inv)
  Select-Inv (receive_not_found h) inv = ground (arith, inv)
  Select-Inv (time_out h) inv = ground (arith, inv)

  MainMove-Inv :
      {m m' : Main} {p : PortChecker} {l : LogChecker} {np np' nl nl' : ℕ}
      → MainMove m np nl m' np' nl'
      → Inv es m p l np nl
      → Inv es m' p l np' nl'
  MainMove-Inv leave_loop inv = ground (arith, inv)
  MainMove-Inv (stop_log h) inv = ground (arith, inv)
  MainMove-Inv (stop_port h) inv = ground (arith, inv)

  pub Step-Inv :
      {s t : State} {new : List Event}
      → Step s new t
      → Inv es s.main s.port s.log s.port_stops s.log_stops
      → Inv (new ++ es) t.main t.port t.log t.port_stops t.log_stops
  Step-Inv (port_moves mv) inv = PortMove-Inv mv inv
  Step-Inv (log_moves mv) inv = LogMove-Inv mv inv
  Step-Inv (selects mv) inv = Select-Inv mv inv
  Step-Inv (main_moves mv) inv = MainMove-Inv mv inv

abbrev pub Holds : List Event → State → Type 0
Holds es s = Inv es s.main s.port s.log s.port_stops s.log_stops

pub Run-Inv : {es : List Event} {s : State} → Run es s → Holds es s
Run-Inv begin = record {
  seen_open = λ h. h;
  seen_message = λ h. h;
  port_once = refl;
  log_once = refl;
  knows = (refl, refl, refl);
}
Run-Inv (later r st) = Step-Inv st (Run-Inv r)
