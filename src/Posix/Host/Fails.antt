-- ===== src/Posix/Host/Fails.antt =====
-- A server's process that an exception of `createListenSocket` or of `accept` ends.
use cppsocks.Base.{ℕ, false, ◌+◌, List, [], ◌∷◌, ◌++◌, length}
use cppsocks.Base.{◌≡◌, refl, ap, ◌∙◌, arith}
use cppsocks.Base.Outcome.{Result, ok, err, thrown, Exception, terminated, runtime_error}
use cppsocks.Base.Effect.{continue, return, recover}
use cppsocks.Tcp.Server.{Tick, failed, idle_server, serve, serve_loop, on_accepted, leave, unwound}
use cppsocks.Posix.{
  answered, refused, other_errno, ewouldblock, Descriptors, ListenAnswers, create_listen_socket,
  close_fd, close_bound, open_fd, checked, internal_poll, passes,
}
use cppsocks.Posix.Accept.{accept, accept_client, new_socket, set_tcp_no_delay}
use cppsocks.Posix.Signals.{init_quit_condition, no_signal}
use cppsocks.Posix.Host.{
  Host, Arrival, Moment, round, host_loop, host_serve, host_main, new_host, leave_host, destroy,
  Program, pusher_of, options_of, join_pusher,
}
use cppsocks.Push.{joined_with}
use cppsocks.Posix.Host.Ledger.{count, fds, count-remove, counts_once}
use cppsocks.Posix.Host.Steps.{Happening, moments_of, ticks_of, ready, Going, no_quit}
use cppsocks.Posix.Host.Loop.{goes_on, started, started-Going, main_of, host_main-main_after}

-- How `accept` can fail: in `poll`, in the system's `accept`, or where TCP_NODELAY cannot be set
-- for the client that it accepted.
pub data Failing : Type 0 where
  poll_fails accept_fails : Failing
  no_delay_fails : ℕ → Failing

abbrev pub failing_at : Failing → Arrival
failing_at poll_fails = record {
  polled = refused other_errno;
  client = refused ewouldblock;
  no_delay = answered tt;
  is_finished = λ k. false;
  bye = answered 0;
}
failing_at accept_fails = record {
  polled = ready;
  client = refused other_errno;
  no_delay = answered tt;
  is_finished = λ k. false;
  bye = answered 0;
}
failing_at (no_delay_fails fd) = record {
  polled = ready;
  client = answered fd;
  no_delay = refused other_errno;
  is_finished = λ k. false;
  bye = answered 0;
}

-- The descriptor that nobody closes.
abbrev pub leaked : Failing → List ℕ
leaked poll_fails = []
leaked accept_fails = []
leaked (no_delay_fails fd) = fd ∷ []

abbrev pub failing_tick : Tick
failing_tick = record { quit = false; accepted = failed; is_finished = λ w. false }

-- The exception ends `main` in order only where the list of workers is empty.
abbrev pub exit_of : List ℕ → Result ℕ
exit_of [] = ok 1
exit_of (w ∷ ws) = err terminated

abbrev with_open : List ℕ → Host → Host
with_open fds h = record h {
  descriptors = record h.descriptors { opened = fds ++ h.descriptors.opened };
}

count-++ : (x : ℕ) (xs ys : List ℕ) → count x (xs ++ ys) ≡ count x xs + count x ys
count-++ x [] ys = omega arith
count-++ x (y ∷ xs) ys = omega (arith, count-++ x xs ys)

loop_fails :
    (max_clients listening : ℕ) (before : List ℕ) (f : Failing) (later : List Moment) (h : Host)
    → Going no_signal listening before h.server h
    → host_loop max_clients (round (failing_at f) ∷ later) h
      ≡ (err (thrown runtime_error), with_open (leaked f) h)
unfolding host_loop accept accept_client new_socket set_tcp_no_delay internal_poll open_fd checked
    passes
loop_fails max_clients listening before poll_fails later h going =
    rw (no_quit max_clients listening before h going.same_status) refl
loop_fails max_clients listening before accept_fails later h going =
    rw (no_quit max_clients listening before h going.same_status) refl
loop_fails max_clients listening before (no_delay_fails fd) later h going =
    rw (no_quit max_clients listening before h going.same_status) refl

exits :
    (e : Exception) (workers : List ℕ) (h : Host)
    → recover (continue (unwound (err (thrown e)) workers, h) (λ _. return 0)) (λ exc. return 1)
      ≡ (exit_of workers, h)
unfolding unwound
exits e [] h = refl
exits e (w ∷ ws) h = refl

-- Each of the six programs, where it could open its listening socket and its pusher, if it has
-- one, returns: any clients come, or do not, and any workers close their sockets; then `accept`
-- throws, in any of the three ways it can. Where no worker is in the server's list, the exit code
-- is 1; where there is one, its thread has not been joined and the process is terminated. The
-- model of `serve` comes to the same over the same rounds. The listening socket is closed; open
-- are the descriptors of workers that have not closed theirs, of clients that were turned away, of
-- the client for whom TCP_NODELAY could not be set, and those that were open at first.
pub host_main_fails :
    (program : Program) (non_blocking : ℕ → ℕ) (answers : ListenAnswers) (hs : List Happening)
    (f : Failing) (later : List Moment) (fd : ℕ) (d d' : Descriptors)
    → pusher_of program ≡ ok tt
    → create_listen_socket non_blocking answers (options_of program).server_port d ≡ (ok fd, d')
    → d'.opened ≡ fd ∷ d.opened
    → (h : Host) × (host_main program non_blocking answers
          (moments_of hs (round (failing_at f) ∷ later))
          (new_host d)
        ≡ (exit_of h.server.workers, h))
      × (serve (options_of program) (ok tt) (ticks_of hs (failing_tick ∷ [])) idle_server
          ≡ (unwound (err (thrown runtime_error)) h.server.workers, h.server))
      × ((x : ℕ)
          → count x h.descriptors.opened
            ≡ count x (fds h.sockets)
              + (count x h.refused_fds + (count x (leaked f) + count x d.opened)))
      × (length h.refused_fds ≡ h.server.turned_away)
unfolding host_main host_serve leave_host destroy init_quit_condition close_bound close_fd serve
    serve_loop on_accepted leave joined_with
host_main_fails program non_blocking answers hs f later fd d d' returned created opened =
    let max_clients = (options_of program).max_clients in
    let moments = moments_of hs (round (failing_at f) ∷ later) in
    let (h1, looped, _, served, going) =
      goes_on max_clients fd d.opened hs (round (failing_at f) ∷ later) (failing_tick ∷ [])
        (started d') (started-Going fd d.opened d' opened) in
    let open_now = leaked f ++ h1.descriptors.opened in
    let h' = destroy (record { fd = fd }) (with_open (leaked f) h1) in
    (
      h',
      host_main-main_after program non_blocking answers moments d (ok fd, d') created
          ∙ ap (main_of program fd) (looped ∙ loop_fails max_clients fd d.opened f later h1 going)
          ∙ ap (join_pusher program) (exits runtime_error h1.server.workers h')
          ∙ ap (λ pusher. joined_with pusher (exit_of h1.server.workers, h')) returned,
      ap leave served,
      λ x. omega (
        arith,
        going.ledger x,
        count-++ x (leaked f) h1.descriptors.opened,
        count-remove fd x open_now (
            omega (
              arith,
              going.ledger fd,
              counts_once fd,
              count-++ fd (leaked f) h1.descriptors.opened,
            )),
      ),
      going.counted,
    )

-- Each of the six programs, where `createListenSocket` throws and its pusher, if it has one,
-- returns: the exit code is 1, the server's loop is never entered, and the descriptors are as
-- `createListenSocket` left them.
pub host_main_not_listening :
    (program : Program) (non_blocking : ℕ → ℕ) (answers : ListenAnswers) (moments : List Moment)
    (e : Exception) (d d' : Descriptors)
    → pusher_of program ≡ ok tt
    → create_listen_socket non_blocking answers (options_of program).server_port d
      ≡ (err (thrown e), d')
    → host_main program non_blocking answers moments (new_host d) ≡ (ok 1, started d')
unfolding joined_with
host_main_not_listening program non_blocking answers moments e d d' returned not_opened =
    host_main-main_after program non_blocking answers moments d (err (thrown e), d') not_opened
    ∙ ap (λ pusher. joined_with pusher (ok 1, started d')) returned
