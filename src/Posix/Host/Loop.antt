-- ===== src/Posix/Host/Loop.antt =====
-- The loop of a server's process, from moment to moment.
use cppsocks.Base.{ℕ, true, List, [], ◌∷◌, arith}
use cppsocks.Base.{◌≡◌, refl, sym, ap, ◌∙◌}
use mathlib.Core.Path.{subst}
use cppsocks.Base.Outcome.{Result, ok}
use cppsocks.Base.Effect.{continue, return, recover}
use cppsocks.Tcp.Server.{Server, Tick, serve_loop, idle_server}
use cppsocks.Tcp.Server.System.Schedule.{quitting, all_joined, finish_all-always}
use cppsocks.Posix.Signals.{
  Request, number, signalled, quit_condition, no_signal, installed, signalled-installed,
  number-asks, init_quit_condition,
}
use cppsocks.Posix.Host.{
  Host, Arrival, Moment, signal, closes, round, host_loop, host_serve, host_main, new_host,
  leave_host, Program, options_of, join_pusher,
}
use cppsocks.Posix.Host.Ledger.{count}
use cppsocks.Posix.{Descriptors, ListenAnswers, create_listen_socket}
use cppsocks.Posix.Host.Steps.{
  Happening, comes, closed_by, moments_of, ticks_of, Going, step_close, step_come,
}

-- Sockets that are closed while the server does not get to its next round.
abbrev pub closings : List ℕ → List Moment → List Moment
closings [] later = later
closings (k ∷ ks) later = closes k ∷ closings ks later

-- The host's loop and the server's loop, step by step.
module _ (max_clients listening : ℕ) (before : List ℕ) where
  pub goes_on :
      (hs : List Happening) (later : List Moment) (ticks : List Tick) (h : Host)
      → Going no_signal listening before h.server h
      → (h' : Host) × (host_loop max_clients (moments_of hs later) h
          ≡ host_loop max_clients later h')
        × (h'.signals ≡ h.signals)
        × (serve_loop max_clients (ticks_of hs ticks) h.server
            ≡ serve_loop max_clients ticks h'.server)
        × Going no_signal listening before h'.server h'
  unfolding serve_loop
  goes_on [] later ticks h going = (h, refl, refl, refl, going)
  goes_on (closed_by k ∷ hs) later ticks h going =
      let (h1, stepped, signals, going1) =
        step_close max_clients listening before no_signal k (moments_of hs later) h h.server
          going in
      let (h', looped, signals', served, going') =
        goes_on hs later ticks h1
          (subst (λ s. Going no_signal listening before s h1) (sym going1.same_server) going1) in
      (
        h',
        stepped ∙ looped,
        signals' ∙ signals,
        ap (λ s. serve_loop max_clients (ticks_of hs ticks) s) (sym going1.same_server) ∙ served,
        going',
      )
  goes_on (comes v finished ∷ hs) later ticks h going =
      let (s', accepted, (h1, stepped, signals, going1)) =
        step_come max_clients listening before v finished (moments_of hs later) h going in
      let (h', looped, signals', served, going') =
        goes_on hs later ticks h1
          (subst (λ s. Going no_signal listening before s h1) (sym going1.same_server) going1) in
      (
        h',
        stepped ∙ looped,
        signals' ∙ signals,
        ap (λ r. continue r (λ _. serve_loop max_clients (ticks_of hs ticks))) accepted
            ∙ ap (λ s. serve_loop max_clients (ticks_of hs ticks) s) (sym going1.same_server)
            ∙ served,
        going',
      )

  winds_down :
      (ks : List ℕ) (later : List Moment) (status : ℕ) (h : Host) (s : Server)
      → Going status listening before s h
      → (h' : Host) × (host_loop max_clients (closings ks later) h ≡ host_loop max_clients later h')
        × Going status listening before s h'
  winds_down [] later status h s going = (h, refl, going)
  winds_down (k ∷ ks) later status h s going =
      let (h1, stepped, signals, going1) =
        step_close max_clients listening before status k (closings ks later) h s going in
      let (h', looped, going') = winds_down ks later status h1 s going1 in
      (h', stepped ∙ looped, going')

  asked_to_quit :
      (r : Request) (later : List Moment) (h : Host)
      → h.signals ≡ installed no_signal
      → host_loop max_clients (signal (number r) ∷ later) h
        ≡ host_loop max_clients later (record h { signals = installed (number r) })
  unfolding host_loop
  asked_to_quit r later h e =
      ap (λ x. continue (x.0, record h { signals = x.1 }) (λ _. host_loop max_clients later))
        (ap (signalled (number r)) e ∙ signalled-installed r)

  last_round :
      (a : Arrival) (later : List Moment) (h : Host)
      → quit_condition h.signals.signal_status ≡ true
      → ((k : ℕ) → a.is_finished k ≡ true)
      → host_loop max_clients (round a ∷ later) h
        ≡ (ok tt, record h { server = all_joined h.server })
  unfolding host_loop
  last_round a later h e all_end = rw e (
      ap (λ r. (r.0, record h { server = r.1 })) (finish_all-always a.is_finished h.server all_end))

  -- From a host that goes on to the end of the loop.
  pub ends :
      (hs : List Happening) (r : Request) (ks : List ℕ) (a : Arrival) (later : List Moment)
      (h : Host)
      → h.signals ≡ installed no_signal
      → ((k : ℕ) → a.is_finished k ≡ true)
      → Going no_signal listening before h.server h
      → (h' : Host) × (host_loop max_clients
            (moments_of hs (signal (number r) ∷ closings ks (round a ∷ later)))
            h
          ≡ (ok tt, record h' { server = all_joined h'.server }))
        × (serve_loop max_clients (ticks_of hs (quitting ∷ [])) h.server
            ≡ (ok tt, all_joined h'.server))
        × Going (number r) listening before h'.server h'
  unfolding serve_loop
  ends hs r ks a later h handled all_end going =
      let (h1, looped, same, served, going1) =
        goes_on hs (signal (number r) ∷ closings ks (round a ∷ later)) (quitting ∷ []) h going in
      let h2 = record h1 { signals = installed (number r) } in
      let (h', wound, going') = winds_down ks (round a ∷ later) (number r) h2 h1.server (record {
        same_status = refl;
        ledger = going1.ledger;
        counted = going1.counted;
        same_server = refl;
      }) in
      (
        h',
        looped
            ∙ asked_to_quit r (closings ks (round a ∷ later)) h1 (same ∙ handled)
            ∙ wound
            ∙ last_round a later h' (ap quit_condition going'.same_status ∙ number-asks r) all_end,
        served
            ∙ finish_all-always (λ i. true) h1.server (λ k. refl)
            ∙ ap (λ s. (ok tt, all_joined s)) (sym going'.same_server),
        record {
          same_status = going'.same_status;
          ledger = going'.ledger;
          counted = going'.counted;
          same_server = refl;
        },
      )

-- The process when it has opened its listening socket.
abbrev pub started : Descriptors → Host
started d = record {
  signals = installed no_signal;
  descriptors = d;
  server = idle_server;
  sockets = [];
  refused_fds = [];
}

pub started-Going :
    (fd : ℕ) (before : List ℕ) (d : Descriptors)
    → d.opened ≡ fd ∷ before
    → Going no_signal fd before idle_server (started d)
started-Going fd before d opened = record {
  same_status = refl;
  ledger = λ x. omega (arith, ap (count x) opened);
  counted = refl;
  same_server = refl;
}

-- What `main` makes of the end of the loop.
abbrev pub main_of : Program → ℕ → Result (Unit {0}) × Host → Result ℕ × Host
main_of program fd r =
    join_pusher program
      (recover (continue (leave_host (record { fd = fd }) r) (λ _. return 0)) (λ exc. return 1))

-- And of what `createListenSocket` returned or threw.
abbrev pub main_after : Program → List Moment → Result ℕ × Descriptors → Result ℕ × Host
main_after program moments (result, d) = join_pusher program (
    recover
      (continue
        (continue (result, started d)
          (λ fd h.
            leave_host (record { fd = fd }) (host_loop (options_of program).max_clients moments h)))
        (λ _. return 0))
      (λ exc. return 1))

pub host_main-main_after :
    (program : Program) (non_blocking : ℕ → ℕ) (answers : ListenAnswers) (moments : List Moment)
    (d : Descriptors) (created : Result ℕ × Descriptors)
    → create_listen_socket non_blocking answers (options_of program).server_port d ≡ created
    → host_main program non_blocking answers moments (new_host d)
      ≡ main_after program moments created
unfolding host_main host_serve init_quit_condition
host_main-main_after program non_blocking answers moments d created e =
    ap (main_after program moments) e
