-- ===== src/Push/Faults.antt =====
-- What one bad connection does to the whole push server.
use cppsocks.Base.{
  ℕ, ◌+◌, ◌≤◌, ◌<◌, Bool, true, false, ◌||◌, List, [], ◌∷◌, ◌++◌, length, ◌==◌, ==-refl,
}
use cppsocks.Base.{◌≡◌, ◌≢◌, refl, sym, ap, ◌∙◌, arith}
use mathlib.Core.Path.{subst}
use cppsocks.Base.Outcome.{Result, err, Exception, thrown, fault, terminated, runtime_error}
use cppsocks.Base.Effect.{continue}
use cppsocks.Tcp.Connection.{Net, failed}
use cppsocks.Tcp.Connection.Serving.{Serves}
use cppsocks.Tcp.Server.{Tick}
use cppsocks.Tcp.Worker.{Round, run}
use cppsocks.Base.Decimal.{decimal}
use cppsocks.Tcp.Worker.Sessions.{broken_round, run_broken}
use cppsocks.Push.{
  tcp_push_main, Hub, insert, add_conn, conn_push, push_handler, message, pusher_loop,
  pusher_runner, uncaught,
}
use cppsocks.Push.Registry.{has, has-insert}
use cppsocks.Push.Dangling.{destroy, push_throws, push_faults}

abbrev first_message : List ℕ
first_message = message 0 ++ (0 ∷ [])

runner_throws :
    (nets : ℕ → Net) (quits : List Bool) (h : Hub) (e : Exception)
    → (conn_push nets first_message (length (message 0) + 1) h).0 ≡ err (thrown e)
    → (pusher_runner nets (false ∷ quits) h).0 ≡ err terminated
unfolding pusher_runner pusher_loop uncaught
runner_throws nets quits h e thrown_there =
    stops (conn_push nets first_message (length (message 0) + 1) h) thrown_there
  where
    stops :
        (r : Result (Unit {0}) × Hub)
        → r.0 ≡ err (thrown e)
        → (uncaught (continue r (λ _. pusher_loop (conn_push nets) quits 1))).0 ≡ err terminated
    stops (result, g) same =
        subst
          (λ x.
            (uncaught (continue (x, g) (λ _. pusher_loop (conn_push nets) quits 1))).0
            ≡ err terminated)
          (sym same) refl

-- One client that is gone, so that the write to its socket fails, ends the whole program: the
-- exception of the first push leaves the pusher's thread, and `main` ends by `std::terminate`,
-- whatever becomes of the server. The client's connection is registered and open, the other sockets
-- make progress and are followed for more than three rounds of one `send`, and no connection has
-- been destroyed.
pub broken_pipe_terminates :
    (nets : ℕ → Net) (room i : ℕ) (quits : List Bool) (h : Hub) (listening : Result (Unit {0}))
    (ts : List Tick)
    → ((k : ℕ) → k ≢ i → Serves (nets k) room)
    → 3 ≤ room
    → has h.connections i ≡ true
    → ((k : ℕ) → h.destroyed k ≡ false)
    → 0 < (nets i).rounds
    → (h.worlds i).closed ≡ false
    → (nets i).answer (h.worlds i).writes 3 ≡ failed
    → let pusher = (pusher_runner nets (false ∷ quits) h).0 in
      (pusher ≡ err terminated) × ((tcp_push_main pusher listening ts).0 ≡ err terminated)
unfolding message decimal tcp_push_main
broken_pipe_terminates nets room i quits h listening ts serves wide there alive rounds still_open
      answered =
    (ends, ap (λ pusher. (tcp_push_main pusher listening ts).0) ends)
  where
    ends : (pusher_runner nets (false ∷ quits) h).0 ≡ err terminated
    ends = runner_throws nets quits h runtime_error (
        push_throws nets room i serves h first_message (omega arith) there alive (omega arith)
          rounds still_open answered)

-- A connection whose worker ends by an exception stays registered, and once the worker is removed
-- and the connection with it, the next push uses a connection that is no more. The connection is
-- open, and the other connections are there and their sockets make progress.
pub abandoned_connection_dangles :
    (nets : ℕ → Net) (room i : ℕ) (later : List Round) (buf bytes : List ℕ) (h : Hub)
    → ((k : ℕ) → k ≢ i → Serves (nets k) room)
    → length bytes ≤ room
    → ((k : ℕ) → k ≢ i → h.destroyed k ≡ false)
    → (h.worlds i).closed ≡ false
    → let worker =
        (run
          (push_handler nets i)
          (broken_round ∷ later)
          buf
          (record { session = h; socket_closed = false; is_active = true })).1 in
      (worker.is_active ≡ false)
      × (has worker.session.connections i ≡ true)
      × ((conn_push nets bytes (length bytes) (destroy i worker.session)).0 ≡ err fault)
unfolding push_handler add_conn
abandoned_connection_dangles nets room i later buf bytes h serves fits alive still_open =
    subst
      (λ r.
        (r.1.is_active ≡ false)
        × (has r.1.session.connections i ≡ true)
        × ((conn_push nets bytes (length bytes) (destroy i r.1.session)).0 ≡ err fault))
      (sym (run_broken (push_handler nets i) later buf _ registered refl still_open))
      (
        refl,
        there,
        push_faults nets room i serves (destroy i registered) bytes fits there only_one
            (ap (λ b. b || h.destroyed i) (==-refl i)),
      )
  where
    registered : Hub
    registered = record h { connections = insert i h.connections }

    there : has (insert i h.connections) i ≡ true
    there = has-insert i i h.connections ∙ ap (λ b. b || has h.connections i) (==-refl i)

    only_one : (k : ℕ) → k ≢ i → (k == i) || h.destroyed k ≡ false
    only_one k apart = ground (arith, alive k apart)
