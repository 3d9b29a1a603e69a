-- ===== src/Posix/Host/Steps.antt =====
-- Single moments of a server's process, and its rounds beside those of the model of `serve`.
use cppsocks.Base.{
  ℕ, suc, Bool, true, false, Option, none, some, List, [], ◌∷◌, length, ltb, Bool-cases, inl, inr,
}
use cppsocks.Base.{◌≡◌, refl, ap, arith}
use cppsocks.Base.Outcome.{ok}
use cppsocks.Base.Effect.{continue}
use cppsocks.Tcp.Server.{
  Server, Tick, Accepted, nobody, client, cleanup, start_worker, turn_away, on_accepted, admit,
}
use cppsocks.Posix.{
  eintr, ewouldblock, Answered, answered, refused, Polled, remove, close_fd, open_fd, checked,
  internal_poll, passes, socket_write,
}
use cppsocks.Posix.Accept.{accept, accept_client, new_socket, set_tcp_no_delay, socket_close}
use cppsocks.Posix.Signals.{quit_condition, no_signal}
use cppsocks.Posix.Host.{
  Host, Arrival, Moment, closes, round, host_loop, on_client, said, close_socket, socket_of,
  without,
}
use cppsocks.Posix.Host.Ledger.{count-remove, count-without, counts_once, Ledger}

-- What can happen to a server that goes on: nobody is there, for one reason or another, or a
-- client comes, whose descriptor is new to the process or not, and `send` takes what it is told.
pub data Visit : Type 0 where
  quiet interrupted vanished : Visit
  visits : ℕ → ℕ → Visit

abbrev pub ready : Answered Polled
ready = answered (record { ready = 1; flagged = true })

abbrev pub arrival_at : Visit → (ℕ → Bool) → Arrival
arrival_at quiet finished = record {
  polled = answered (record { ready = 0; flagged = false });
  client = refused ewouldblock;
  no_delay = answered tt;
  is_finished = finished;
  bye = answered 0;
}
arrival_at interrupted finished = record {
  polled = refused eintr;
  client = refused ewouldblock;
  no_delay = answered tt;
  is_finished = finished;
  bye = answered 0;
}
arrival_at vanished finished = record {
  polled = ready;
  client = refused ewouldblock;
  no_delay = answered tt;
  is_finished = finished;
  bye = answered 0;
}
arrival_at (visits fd n) finished = record {
  polled = ready;
  client = answered fd;
  no_delay = answered tt;
  is_finished = finished;
  bye = answered n;
}

abbrev pub accepted_of : Visit → Accepted
accepted_of quiet = nobody
accepted_of interrupted = nobody
accepted_of vanished = nobody
accepted_of (visits fd n) = client

pub data Happening : Type 0 where
  comes : Visit → (ℕ → Bool) → Happening
  closed_by : ℕ → Happening

abbrev pub moments_of : List Happening → List Moment → List Moment
moments_of [] later = later
moments_of (comes v finished ∷ hs) later = round (arrival_at v finished) ∷ moments_of hs later
moments_of (closed_by k ∷ hs) later = closes k ∷ moments_of hs later

-- The same rounds as the server's own model has them.
abbrev pub ticks_of : List Happening → List Tick → List Tick
ticks_of [] later = later
ticks_of (comes v finished ∷ hs) later =
    record { quit = false; accepted = accepted_of v; is_finished = finished } ∷ ticks_of hs later
ticks_of (closed_by k ∷ hs) later = ticks_of hs later

-- A host that goes on, beside a server of the model, with `signalStatus`.
pub record Going (status listening : ℕ) (before : List ℕ) (s : Server) (h : Host) : Type 0 where
  pub same_status : h.signals.signal_status ≡ status
  pub ledger : Ledger listening before h
  pub counted : length h.refused_fds ≡ h.server.turned_away
  pub same_server : h.server ≡ s

-- A step of the host, and none or one of the server.
abbrev pub Steps : ℕ → ℕ → ℕ → List ℕ → List Moment → List Moment → Host → Server → Type 0
Steps status max_clients listening before now later h s' =
    (h' : Host) × (host_loop max_clients now h ≡ host_loop max_clients later h')
    × (h'.signals ≡ h.signals)
    × Going status listening before s' h'

module _ (max_clients listening : ℕ) (before : List ℕ) where
  pub step_close :
      (status k : ℕ) (later : List Moment) (h : Host) (s : Server)
      → Going status listening before s h
      → Steps status max_clients listening before (closes k ∷ later) later h s
  unfolding host_loop close_socket socket_close close_fd
  step_close status k later h s going = by_socket (socket_of k h.sockets) refl
    where
      by_socket :
          (found : Option ℕ)
          → socket_of k h.sockets ≡ found
          → Steps status max_clients listening before (closes k ∷ later) later h s
      by_socket none e = (
        h,
        ap (λ o. continue (close_socket k o h) (λ _. host_loop max_clients later)) e,
        refl,
        going,
      )
      by_socket (some fd) e = (
        record h {
          sockets = without k h.sockets;
          descriptors = record h.descriptors { opened = remove fd h.descriptors.opened };
        },
        ap (λ o. continue (close_socket k o h) (λ _. host_loop max_clients later)) e,
        refl,
        record {
          same_status = going.same_status;
          ledger = λ x. omega (
            arith,
            going.ledger x,
            count-without k fd x h.sockets e,
            count-remove fd x h.descriptors.opened
                (omega (arith, going.ledger fd, count-without k fd fd h.sockets e, counts_once fd)),
          );
          counted = going.counted;
          same_server = going.same_server;
        },
      )

  abbrev pub tick_at : Visit → (ℕ → Bool) → Tick
  tick_at v finished = record { quit = false; accepted = accepted_of v; is_finished = finished }

  abbrev pub Comes : Visit → (ℕ → Bool) → List Moment → Host → Server → Type 0
  Comes v finished later h s =
      (s' : Server) × (on_accepted max_clients (tick_at v finished) s ≡ (ok tt, s'))
      × Steps no_signal max_clients listening before (round (arrival_at v finished) ∷ later) later h
          s'

  pub no_quit :
      (h : Host)
      → h.signals.signal_status ≡ no_signal
      → quit_condition h.signals.signal_status ≡ false
  unfolding quit_condition
  no_quit h e = ap quit_condition e

  step_admit :
      (fd n : ℕ) (finished : ℕ → Bool) (later : List Moment) (h : Host)
      → Going no_signal listening before h.server h
      → ltb (length (cleanup finished h.server).workers) max_clients ≡ true
      → Comes (visits fd n) finished later h h.server
  unfolding host_loop on_client accept accept_client new_socket set_tcp_no_delay internal_poll
      open_fd checked on_accepted admit
  step_admit fd n finished later h going free = (
    start_worker (cleanup finished h.server),
    rw free refl,
    (
      record h {
        server = start_worker (cleanup finished h.server);
        sockets = ((cleanup finished h.server).started, fd) ∷ h.sockets;
        descriptors = record h.descriptors { opened = fd ∷ h.descriptors.opened };
      },
      rw (no_quit h going.same_status, free) refl,
      refl,
      record {
        same_status = going.same_status;
        ledger = λ x. omega (arith, going.ledger x);
        counted = (unfold cleanup start_worker in going.counted);
        same_server = refl;
      },
    ),
  )

  step_refuse :
      (fd n : ℕ) (finished : ℕ → Bool) (later : List Moment) (h : Host)
      → Going no_signal listening before h.server h
      → ltb (length (cleanup finished h.server).workers) max_clients ≡ false
      → Comes (visits fd n) finished later h h.server
  unfolding host_loop on_client said socket_write accept accept_client new_socket set_tcp_no_delay
      internal_poll open_fd checked on_accepted admit
  step_refuse fd n finished later h going full = (
    turn_away (cleanup finished h.server),
    rw full refl,
    (
      record h {
        server = turn_away (cleanup finished h.server);
        refused_fds = fd ∷ h.refused_fds;
        descriptors = record h.descriptors { opened = fd ∷ h.descriptors.opened };
      },
      rw (no_quit h going.same_status, full) refl,
      refl,
      record {
        same_status = going.same_status;
        ledger = λ x. omega (arith, going.ledger x);
        counted = (unfold cleanup turn_away in ap suc going.counted);
        same_server = refl;
      },
    ),
  )

  pub step_come :
      (v : Visit) (finished : ℕ → Bool) (later : List Moment) (h : Host)
      → Going no_signal listening before h.server h
      → Comes v finished later h h.server
  unfolding host_loop on_client accept accept_client internal_poll passes on_accepted
  step_come quiet finished later h going =
      (h.server, refl, (h, rw (no_quit h going.same_status) refl, refl, going))
  step_come interrupted finished later h going =
      (h.server, refl, (h, rw (no_quit h going.same_status) refl, refl, going))
  step_come vanished finished later h going =
      (h.server, refl, (h, rw (no_quit h going.same_status) refl, refl, going))
  step_come (visits fd n) finished later h going =
      elim (Bool-cases (ltb (length (cleanup finished h.server).workers) max_clients)) [
        | inl free ↦ step_admit fd n finished later h going free
        | inr full ↦ step_refuse fd n finished later h going full
      ]
