-- ===== src/Posix/Host/Tests.antt =====
-- A process that serves two clients, turns a third away, and is interrupted.
use cppsocks.Base.{ℕ, ◌+◌, false, none, some, List, [], ◌∷◌, length, ◌≡◌, refl}
use cppsocks.Base.Outcome.{ok, err, thrown, runtime_error}
use cppsocks.Tcp.Server.{default_options, idle_server, serve, unwound}
use cppsocks.Posix.{
  eintr, answered, refused, Descriptors, ListenAnswers, create_listen_socket, set_socket_flags,
}
use cppsocks.Posix.Host.{Host, round, host_main, http_server, http_options, new_host}
use cppsocks.Posix.Host.Ledger.{count, fds}
use cppsocks.Posix.Host.Steps.{Happening, comes, closed_by, quiet, visits, moments_of, ticks_of}
use cppsocks.Posix.Host.Fails.{
  no_delay_fails, failing_at, leaked, failing_tick, exit_of, host_main_fails,
}
use cppsocks.Http.Server as Http
use cppsocks.Base.{◌%◌, ◌^◌}

abbrev all_well : ListenAnswers
all_well = record {
  socket = answered 3;
  reuse = answered tt;
  get = refused eintr ∷ answered 2 ∷ [];
  set = answered tt ∷ [];
  bind = answered tt;
  listen = answered tt;
}

abbrev standard : Descriptors
standard = record { opened = 0 ∷ 1 ∷ 2 ∷ []; bound = none }

abbrev happenings : List Happening
happenings =
    comes quiet (λ k. false)
    ∷ comes (visits 4 28) (λ k. false)
    ∷ comes (visits 5 28) (λ k. false)
    ∷ comes (visits 6 28) (λ k. false)
    ∷ closed_by 0
    ∷ []

-- One client is served, another comes, and TCP_NODELAY cannot be set for it.
host_main_fails_example :
    (h : Host) × (host_main http_server
        (λ flags. flags + 2048)
        all_well
        (moments_of
          (comes (visits 4 28) (λ k. false) ∷ [])
          (round (failing_at (no_delay_fails 5)) ∷ []))
        (new_host standard)
      ≡ (exit_of h.server.workers, h))
    × (serve http_options
          (ok tt)
          (ticks_of (comes (visits 4 28) (λ k. false) ∷ []) (failing_tick ∷ []))
          idle_server
        ≡ (unwound (err (thrown runtime_error)) h.server.workers, h.server))
    × ((x : ℕ)
        → count x h.descriptors.opened
          ≡ count x (fds h.sockets)
            + (count x h.refused_fds
                + (count x (leaked (no_delay_fails 5)) + count x standard.opened)))
    × (length h.refused_fds ≡ h.server.turned_away)
unfolding create_listen_socket set_socket_flags
host_main_fails_example =
    host_main_fails http_server (λ flags. flags + 2048) all_well
      (comes (visits 4 28) (λ k. false) ∷ []) (no_delay_fails 5) [] 3 standard
      (record { opened = 3 ∷ standard.opened; bound = some (Http.default_options.port % 2 ^ 16) })
      refl refl refl
