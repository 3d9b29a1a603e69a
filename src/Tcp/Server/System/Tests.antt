-- ===== src/Tcp/Server/System/Tests.antt =====
-- Three clients of a server for two, one of which ends while the server goes on.
use cppsocks.Base.{◌≤◌, false, true, [], ◌∷◌, All, ◌≡◌, ◌≢◌, refl, arith}
use cppsocks.Base.Outcome
use cppsocks.Base.Outcome.{ok, err, terminated}
use cppsocks.Tcp.Connection.{World, is_closed}
use cppsocks.Tcp.Connection.Tests.{eager_net, fresh_world}
use cppsocks.Tcp.Echo.{echo_handler}
use cppsocks.Tcp.Worker.{Worker}
use cppsocks.Tcp.Worker.Sessions.{broken_round, run_broken}
use cppsocks.Tcp.Server.{
  default_options, idle_server, client, failed, Tick, sweep, cleanup, admit, on_accepted,
  serve_loop, serve,
}
use cppsocks.Tcp.Server.Failure.{failed_accept_terminates}
use cppsocks.Tcp.Server.System.{System, at_start, mark, serves, ends, Reach, start, later}
use cppsocks.Tcp.Server.System.Safety.{running, threads_bounded}

-- The states after each of the steps.
abbrev pub one_started : System
one_started = record at_start {
  server = record { workers = 0 ∷ []; joined = []; started = 1; turned_away = 0 };
}

abbrev one_ended : System
one_ended = record one_started { is_ended = mark 0 (λ i. false) }

abbrev one_joined : System
one_joined = record one_ended {
  server = record { workers = 1 ∷ []; joined = 0 ∷ []; started = 2; turned_away = 0 };
}

abbrev echo_worker : Worker World
echo_worker = record { session = fresh_world; socket_closed = false; is_active = true }

abbrev echo_worker_ended : Worker World
echo_worker_ended = record echo_worker { is_active = false }

one_joined-Reach : Reach (echo_handler eager_net) 2 one_joined
unfolding on_accepted admit cleanup sweep echo_handler is_closed
one_joined-Reach =
    later
      (later (later start (serves client one_started.server refl)) (
        ends 0 (broken_round ∷ []) [] echo_worker echo_worker_ended (omega arith) refl
          (run_broken (echo_handler eager_net) [] [] echo_worker fresh_world refl refl)))
      (serves client one_joined.server refl)

threads_bounded_example :
    (running one_joined ≤ 2) × All (λ k. one_joined.is_ended k ≡ true) one_joined.server.joined
threads_bounded_example = threads_bounded (echo_handler eager_net) 2 one_joined one_joined-Reach

abbrev pub arrival : Tick
arrival = record { quit = false; accepted = client; is_finished = λ w. false }

abbrev pub accept_fails : Tick
accept_fails = record { quit = false; accepted = failed; is_finished = λ w. false }

pub busy : one_started.server.workers ≢ []
busy h = cc h

pub arrived : serve_loop 2 (arrival ∷ []) idle_server ≡ (err Outcome.running, one_started.server)
unfolding serve_loop on_accepted admit cleanup sweep
arrived = refl

failed_accept_terminates_example :
    serve default_options (ok tt) (arrival ∷ accept_fails ∷ []) idle_server
    ≡ (err terminated, one_started.server)
failed_accept_terminates_example =
    failed_accept_terminates default_options (arrival ∷ []) [] accept_fails idle_server
      one_started.server arrived refl refl busy
