-- ===== src/Posix/Signals.antt =====
-- The quit condition of system_posix.cpp, on `signalStatus`.
use cppsocks.Base.{ℕ, Bool, true, false, List, [], ◌∷◌, ◌==◌, if◌then◌else◌, ◌≡◌, refl}
use cppsocks.Base.Outcome.{ok, err, terminated}
use cppsocks.Base.Effect.{M, return, ◌>>◌}

-- `signalStatus`, and the signals for which `sigHandler` is installed.
pub record Signals : Type 0 where
  pub signal_status : ℕ
  pub handled : List ℕ

abbrev pub no_signal : ℕ
no_signal = 0

abbrev pub signals_at_start : Signals
signals_at_start = record { signal_status = no_signal; handled = [] }

unfoldable pub sig_handler : ℕ → Signals → Signals
sig_handler sig_no s = record s { signal_status = sig_no }

unfoldable pub quit_condition : ℕ → Bool
quit_condition signal_status = if signal_status == no_signal then false else true

-- `initQuitCondition`, with the numbers of the two signals.
abbrev pub sigint : ℕ
sigint = 2

abbrev pub sigterm : ℕ
sigterm = 15

unfoldable pub init_quit_condition : M Signals (Unit {0})
init_quit_condition s = (ok tt, record s { handled = sigint ∷ sigterm ∷ s.handled })

is_handled : ℕ → List ℕ → Bool
is_handled sig_no [] = false
is_handled sig_no (h ∷ hs) = if sig_no == h then true else is_handled sig_no hs

-- A signal arrives: without a handler it ends the process.
unfoldable pub signalled : ℕ → M Signals (Unit {0})
unfolding is_handled sig_handler
signalled sig_no s =
    if is_handled sig_no s.handled then (ok tt, sig_handler sig_no s) else (err terminated, s)

abbrev pub signals : List ℕ → M Signals (Unit {0})
signals [] = return tt
signals (sig_no ∷ later) = signalled sig_no >> signals later

-- The two signals that ask the program to end.
pub data Request : Type 0 where
  interrupt terminate : Request

abbrev pub number : Request → ℕ
number interrupt = sigint
number terminate = sigterm

abbrev pub numbers : List Request → List ℕ
numbers [] = []
numbers (r ∷ rs) = number r ∷ numbers rs

abbrev pub is_asked : List Request → Bool
is_asked [] = false
is_asked (r ∷ rs) = true

abbrev pub installed : ℕ → Signals
installed status = record { signal_status = status; handled = sigint ∷ sigterm ∷ [] }

-- Once a signal has arrived, later ones do not take it back.
signals-stay :
    (rs : List Request) (status : ℕ)
    → quit_condition status ≡ true
    → let (result, s) = signals (numbers rs) (installed status) in
      (result ≡ ok tt) × (quit_condition s.signal_status ≡ true)
unfolding signalled is_handled sig_handler quit_condition
signals-stay [] status asked = (refl, asked)
signals-stay (interrupt ∷ rs) status asked = signals-stay rs sigint refl
signals-stay (terminate ∷ rs) status asked = signals-stay rs sigterm refl

-- The first signal.
pub signalled-installed :
    (r : Request) → signalled (number r) (installed no_signal) ≡ (ok tt, installed (number r))
unfolding signalled is_handled sig_handler
signalled-installed interrupt = refl
signalled-installed terminate = refl

pub number-asks : (r : Request) → quit_condition (number r) ≡ true
unfolding quit_condition
number-asks interrupt = refl
number-asks terminate = refl

-- Behind `initQuitCondition`, no number of SIGINT and SIGTERM in any order ends the process, and
-- the quit condition holds from the first of them on and not before; without it the first of them
-- ends the process.
pub signals_ask_to_quit :
    (rs : List Request) (r : Request)
    → let (result, s) = (init_quit_condition >> signals (numbers rs)) signals_at_start in
      (result ≡ ok tt)
      × (quit_condition s.signal_status ≡ is_asked rs)
      × ((signals (numbers (r ∷ rs)) signals_at_start).0 ≡ err terminated)
unfolding init_quit_condition signalled is_handled sig_handler quit_condition
signals_ask_to_quit [] interrupt = (refl, refl, refl)
signals_ask_to_quit [] terminate = (refl, refl, refl)
signals_ask_to_quit (interrupt ∷ rs) interrupt =
    ((signals-stay rs sigint refl).0, (signals-stay rs sigint refl).1, refl)
signals_ask_to_quit (interrupt ∷ rs) terminate =
    ((signals-stay rs sigint refl).0, (signals-stay rs sigint refl).1, refl)
signals_ask_to_quit (terminate ∷ rs) interrupt =
    ((signals-stay rs sigterm refl).0, (signals-stay rs sigterm refl).1, refl)
signals_ask_to_quit (terminate ∷ rs) terminate =
    ((signals-stay rs sigterm refl).0, (signals-stay rs sigterm refl).1, refl)
