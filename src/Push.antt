-- ===== src/Push.antt =====
-- examples/tcp_push and examples/ws_push: servers that also send of their own accord, to every
-- connection that is registered. A connection is known by the place of its address in the order
-- of the addresses. The mutex makes each call of a manager one step. `spdlog` and the pause
-- between two messages are left out.
pub mod Registry
pub mod Delivery
pub mod Pusher
pub mod WsPusher
pub mod Dangling
pub mod Faults
pub mod WsServer
pub mod Tests
use cppsocks.Base.{
  ℕ, ◌+◌, ◌^◌, ◌%◌, Bool, true, false, List, [], ◌∷◌, ◌++◌, length, ltb, ◌==◌, if◌then◌else◌,
}
use cppsocks.Base.Bytes.{c_str}
use cppsocks.Base.Decimal.{decimal}
use cppsocks.Base.Outcome.{Result, ok, err, thrown, fault, terminated, running, blocked}
use cppsocks.Base.Effect.{M, continue, return, lift, recover, ◌>>=◌, ◌>>◌}
use cppsocks.Tcp.Connection.{Net, World, Holder, put_world, send}
use cppsocks.Tcp.Worker.{ServerHandler}
use cppsocks.Tcp.Server.{Server, Tick, default_options, idle_server, serve}
use cppsocks.Http.Ws.{WsHandlerOn, ws_close, on_text_default, send_text, send_data}

-- The manager's set, each connection, and which of them are no more.
pub record Hub : Type 0 where
  pub connections : List ℕ
  pub worlds : ℕ → World
  pub destroyed : ℕ → Bool

-- `std::set::insert` and `erase`, on the elements in order.
unfoldable pub insert : ℕ → List ℕ → List ℕ
insert i [] = i ∷ []
insert i (j ∷ js) =
    let rest = insert i js in if ltb i j then i ∷ j ∷ js else if i == j then j ∷ js else j ∷ rest

unfoldable pub erase : ℕ → List ℕ → List ℕ
erase i [] = []
erase i (j ∷ js) = let rest = erase i js in if i == j then js else j ∷ rest

-- `addConn` and `delConn` of tcp_push.
unfoldable pub add_conn : ℕ → M Hub (Unit {0})
add_conn i h = (ok tt, record h { connections = insert i h.connections })

unfoldable pub del_conn : ℕ → M Hub (Unit {0})
del_conn i h = (ok tt, record h { connections = erase i h.connections })

-- `addElem` and `delElem` of ws_push.
unfoldable pub add_elem : ℕ → M Hub (Unit {0})
add_elem i h = (ok tt, record h { connections = insert i h.connections })

unfoldable pub del_elem : ℕ → M Hub (Unit {0})
del_elem i h = (ok tt, record h { connections = erase i h.connections })

-- A call on one connection. There must be one.
unfoldable pub on_connection : {A : Type 0} → ℕ → M World A → M Hub A
on_connection i m h =
    let called = m (h.worlds i) in
    if h.destroyed i
    then (err fault, h)
    else (called.0, record h { worlds = put_world i called.1 h.worlds })

unfoldable pub for_each : (ℕ → M World (Unit {0})) → List ℕ → M Hub (Unit {0})
for_each m [] = return tt
for_each m (i ∷ is) = on_connection i (m i) >> for_each m is

unfoldable pub push_all : (ℕ → M World (Unit {0})) → M Hub (Unit {0})
push_all m h = for_each m h.connections h

-- Connection `i` among all of them.
abbrev pub connection_of : ℕ → Holder Hub
connection_of i = record { call = λ A m. on_connection i m; shut = λ h. (h.worlds i).closed }

module _ (nets : ℕ → Net) where
  -- `ConnMgr::push` and `ElemMgr::push`.
  unfoldable pub conn_push : List ℕ → ℕ → M Hub (Unit {0})
  conn_push buf len = push_all (λ i. send (nets i) buf len >> return tt)

  unfoldable pub elem_push : List ℕ → M Hub (Unit {0})
  elem_push buf = push_all (λ i. send_text (nets i) buf >> return tt)

  -- `PushHandler` of a connection. Each call is one step; `onReceive` sends without the manager's
  -- mutex, so that in the program a push to the same connection can come between its writes.
  unfoldable pub push_handler : ℕ → ServerHandler Hub
  push_handler i = record {
    on_connect = add_conn i;
    on_disconnect = del_conn i;
    on_receive = λ buf len. on_connection i (send (nets i) buf len >> return tt);
    is_closed = λ h. (h.worlds i).closed;
  }

  -- `WsPushHandler` of a connection, which keeps the default of `onText`.
  unfoldable pub ws_push_on_data : ℕ → List ℕ → ℕ → M Hub (Unit {0})
  ws_push_on_data i buf len = on_connection i (send_data (nets i) buf len >> return tt)

  unfoldable pub ws_push_handler : ℕ → WsHandlerOn Hub
  unfolding ws_push_on_data on_text_default
  ws_push_handler i = record {
    on_connect = add_elem i;
    on_disconnect = del_elem i;
    on_data = ws_push_on_data i;
    on_text = on_text_default (ws_push_on_data i);
    subprotocol = [];
    close_connection = on_connection i (ws_close (nets i));
  }

-- What the pusher sends in a round: the number and the end of the line.
unfoldable pub message : ℕ → List ℕ
message cnt = decimal cnt ++ (10 ∷ [])

-- The end of a thread's function by an exception.
pub uncaught : Result (Unit {0}) × Hub → Result (Unit {0}) × Hub
uncaught (ok t, h) = (ok t, h)
uncaught (err (thrown e), h) = (err terminated, h)
uncaught (err fault, h) = (err fault, h)
uncaught (err terminated, h) = (err terminated, h)
uncaught (err running, h) = (err running, h)
uncaught (err blocked, h) = (err blocked, h)

-- The loop, over the answers of `quitCondition()`. The memory of the message ends with a NUL.
unfoldable pub pusher_loop : (List ℕ → ℕ → M Hub (Unit {0})) → List Bool → ℕ → M Hub (Unit {0})
pusher_loop push [] cnt h = (err running, h)
pusher_loop push (quit ∷ quits) cnt h =
    let next =
      continue (push (message cnt ++ (0 ∷ [])) (length (message cnt) + 1) h)
        (λ _. pusher_loop push quits ((cnt + 1) % 2 ^ 64)) in
    if quit then (ok tt, h) else next

-- `pusherRunner` of tcp_push, which sends the NUL too, and of ws_push.
unfoldable pub pusher_runner : (ℕ → Net) → List Bool → M Hub (Unit {0})
unfolding uncaught
pusher_runner nets quits h = uncaught (pusher_loop (conn_push nets) quits 0 h)

unfoldable pub ws_pusher_runner : (ℕ → Net) → List Bool → M Hub (Unit {0})
unfolding uncaught
ws_pusher_runner nets quits h = uncaught (pusher_loop (λ buf len. elem_push nets buf) quits 0 h)

-- `pusherThr.join()` and what follows: a thread whose function let an exception out has ended the
-- process, and a thread that is still running is waited for.
unfoldable pub joined_with : {S : Type 0} → Result (Unit {0}) → Result ℕ × S → Result ℕ × S
joined_with (ok t) (result, s) = (result, s)
joined_with (err e) (result, s) = (err e, s)

-- `main` of tcp_push, with what has become of the pusher: `EXIT_SUCCESS` is 0 and `EXIT_FAILURE`
-- is 1.
unfoldable pub tcp_push_main : Result (Unit {0}) → Result (Unit {0}) → List Tick → Result ℕ × Server
unfolding joined_with
tcp_push_main pusher listening ts =
    joined_with pusher
      (recover ((serve default_options listening ts >> return 0) idle_server) (λ exc. return 1))
