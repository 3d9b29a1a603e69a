-- ===== src/Posix/Sockets.antt =====
-- `SocketImpl` as the socket of a connection and of a worker: the rest of its operations, and what
-- its system calls make of a round of the worker's loop and of a call of `send`.
use cppsocks.Base.{ℕ, ◌^◌, ◌≤◌, ◌<◌, Bool, true, false, List, [], ◌∷◌}
use cppsocks.Base.{◌≡◌, refl, ap, ap₂, ◌∙◌, arith}
use cppsocks.Base.Outcome.{Result, ok}
use cppsocks.Tcp.Connection.{Net, World}
use cppsocks.Tcp.Connection.Laws.{Sent}
use cppsocks.Tcp.Connection.Serving.{Serves}
use cppsocks.Tcp.Worker.{Round, run, max_size}
use cppsocks.Tcp.Worker.Sessions.{
  Event, idle, retry, chunk, event_round, rounds_of, end_of_file, bytes_of, Arrive,
}
use cppsocks.Tcp.Echo.{echo_handler}
use cppsocks.Tcp.Echo.Session.{Anything, tcp_echo}
use cppsocks.Posix.{
  eintr, ewouldblock, Answered, answered, refused, socket_read, socket_write, Polled, internal_poll,
  is_readable,
}
use cppsocks.Posix.Signals.{quit_condition}

-- `SocketImpl::isWriteable`, which asks for POLLOUT.
unfoldable pub is_writeable : Answered Polled → Result Bool
is_writeable answer = internal_poll answer

-- The socket of a connection, by what the system's `send` answers.
unfoldable pub posix_net : (ℕ → ℕ → Answered ℕ) → ℕ → Net
posix_net kernel rounds = record { answer = λ i n. socket_write (kernel i n); rounds = rounds }

-- One round of the worker's loop, by `signalStatus` and by what `poll` and `recv` answer.
unfoldable pub posix_round : ℕ → Answered Polled → Answered (List ℕ) → Round
posix_round signal_status polled received = record {
  quit = quit_condition signal_status;
  poll = is_readable polled;
  received = socket_read received;
}

-- What can happen to a worker whose client stays: `poll` times out or is interrupted, `recv` is
-- interrupted or finds nothing after all, or bytes arrive.
pub data Happens : Type 0 where
  times_out poll_interrupted recv_interrupted nothing_there : Happens
  arrives : List ℕ → Happens

abbrev pub ready : Answered Polled
ready = answered (record { ready = 1; flagged = true })

-- Where `poll` reports nothing there is no call of `recv`, and any answer will do for it.
abbrev pub round_at : Happens → Round
round_at times_out =
    posix_round 0 (answered (record { ready = 0; flagged = false })) (refused ewouldblock)
round_at poll_interrupted = posix_round 0 (refused eintr) (refused ewouldblock)
round_at recv_interrupted = posix_round 0 ready (refused eintr)
round_at nothing_there = posix_round 0 ready (refused ewouldblock)
round_at (arrives bytes) = posix_round 0 ready (answered bytes)

abbrev pub rounds_at : List Happens → List Round → List Round
rounds_at [] later = later
rounds_at (x ∷ xs) later = round_at x ∷ rounds_at xs later

-- What the worker makes of it.
abbrev pub event_of : Happens → Event
event_of times_out = idle
event_of poll_interrupted = idle
event_of recv_interrupted = retry
event_of nothing_there = retry
event_of (arrives bytes) = chunk bytes

abbrev pub events_of : List Happens → List Event
events_of [] = []
events_of (x ∷ xs) = event_of x ∷ events_of xs

pub round_at-event : (x : Happens) → round_at x ≡ event_round (event_of x)
unfolding posix_round quit_condition is_readable internal_poll socket_read
round_at-event times_out = refl
round_at-event poll_interrupted = refl
round_at-event recv_interrupted = refl
round_at-event nothing_there = refl
round_at-event (arrives bytes) = refl

pub rounds_at-events :
    (xs : List Happens) (later : List Round) → rounds_at xs later ≡ rounds_of (events_of xs) later
rounds_at-events [] later = refl
rounds_at-events (x ∷ xs) later =
    ap₂ (λ r rs. r ∷ rs) (round_at-event x) (rounds_at-events xs later)

-- `recv` answers 0 where the client has closed its side.
abbrev pub client_gone : Round
client_gone = posix_round 0 ready (answered [])

client_gone-end_of_file : client_gone ≡ end_of_file
unfolding posix_round quit_condition is_readable internal_poll socket_read
client_gone-end_of_file = refl

-- The system's `send` blocks until it has taken a byte at least, and no more than it is offered.
abbrev pub TakesBytes : (ℕ → ℕ → Answered ℕ) → Type 0
TakesBytes kernel = (i n : ℕ) → 0 < n → (k : ℕ) × (kernel i n ≡ answered k) × (0 < k) × (k ≤ n)

pub posix_net-Serves :
    (kernel : ℕ → ℕ → Answered ℕ) (rounds room : ℕ)
    → TakesBytes kernel
    → room < rounds
    → room < 2 ^ 64
    → Serves (posix_net kernel rounds) room
unfolding posix_net socket_write
posix_net-Serves kernel rounds room takes enough fits = record {
  delivers = λ i n pos.
      let (k, e, some_taken, bound) = takes i n pos in (k, ap socket_write e, some_taken, bound);
  enough = enough;
  fits = fits;
}

-- The echo server over POSIX: through time-outs, interrupted calls and reads that find nothing, it
-- sends back every byte that `recv` stores, in order, and when `recv` answers 0, the worker ends
-- and closes the socket. No signal has arrived, `send` blocks until it takes a byte, `recv` stores
-- 1 to 4096 bytes at a time, the connection is open, and `send` is followed for more than 4096
-- rounds.
pub posix_echo :
    (kernel : ℕ → ℕ → Answered ℕ) (rounds : ℕ) (xs : List Happens) (later : List Round)
    (buf : List ℕ) (w : World)
    → TakesBytes kernel
    → max_size < rounds
    → Arrive Anything [] (events_of xs)
    → w.closed ≡ false
    → (w' : World) × (run
          (echo_handler (posix_net kernel rounds))
          (rounds_at xs (client_gone ∷ later))
          buf
          (record { session = w; socket_closed = false; is_active = true })
        ≡ (ok tt, record { session = w'; socket_closed = true; is_active = false }))
      × Sent w (bytes_of (events_of xs)) w'
posix_echo kernel rounds xs later buf w takes enough arrive still_open =
    let (w', e, sent) =
      tcp_echo (posix_net kernel rounds) max_size (events_of xs) later buf w
        (posix_net-Serves kernel rounds max_size takes enough (omega arith)) (omega arith) arrive
        still_open in
    let same : rounds_at xs (client_gone ∷ later) ≡ rounds_of (events_of xs) (end_of_file ∷ later) =
      rounds_at-events xs (client_gone ∷ later)
      ∙ ap (λ r. rounds_of (events_of xs) (r ∷ later)) client_gone-end_of_file in
    (
      w',
      ap
            (λ rs.
              run (echo_handler (posix_net kernel rounds)) rs buf
                (record { session = w; socket_closed = false; is_active = true }))
            same
          ∙ e,
      sent,
    )
