-- ===== src/Push/Tests.antt =====
-- Push servers with two or three connections.
use cppsocks.Base.{
  ℕ, ◌≤◌, true, false, List, [], ◌∷◌, All, length, if◌then◌else◌, ◌==◌, ◌≡◌, ◌≢◌, refl, arith,
}
use cppsocks.Base.Bytes.{codes}
use cppsocks.Base.Outcome.{ok, err, fault, terminated}
use cppsocks.Tcp.Connection.{Net, failed}
use cppsocks.Tcp.Connection.Laws.{Sent}
use cppsocks.Tcp.Connection.Serving.{Serves}
use cppsocks.Tcp.Connection.Tests.{eager_net, fresh_world}
use cppsocks.Tcp.Worker.{run}
use cppsocks.Tcp.Worker.Sessions.{broken_round}
use cppsocks.Http.Response.Tests.{eager_net-Serves}
use cppsocks.Frame.Wire.{plain_frame}
use cppsocks.Push.{tcp_push_main, Hub, conn_push, push_handler, pusher_runner}
use cppsocks.Push.Registry.{has, Sorted}
use cppsocks.Push.Registry.Changes.{
  Change, joins, leaves, changes, Members, member_changes, Stands, Changed, changes-Changed,
  order_leaves_no_trace,
}
use cppsocks.Push.Delivery.{heard}
use cppsocks.Push.Delivery.Histories.{Act, calls, pushes, receives, inbox, Heard, Suits}
use cppsocks.Push.Delivery.Servers.{
  tcp_service, ws_service, tcp_act, ws_act, in_turn, IsMessage, tcp_push_delivers, ws_push_delivers,
}
use cppsocks.Push.Pusher.{until_quit, numbers_text, pusher_counts}
use cppsocks.Push.{ws_pusher_runner}
use cppsocks.Push.WsPusher.{numbers_frames, ws_pusher_counts}
use cppsocks.Push.Dangling.{destroy}
use cppsocks.Push.Faults.{broken_pipe_terminates, abandoned_connection_dangles}

abbrev nets : ℕ → Net
nets i = eager_net

nets-Serves : (i : ℕ) → Serves (nets i) 10000
nets-Serves i = eager_net-Serves

abbrev empty_hub : Hub
empty_hub = record { connections = []; worlds = λ i. fresh_world; destroyed = λ i. false }

abbrev nobody : Members
nobody k = false

empty_hub-Stands : Stands empty_hub.connections nobody
empty_hub-Stands = record { sorted = tt; same = λ k. refl }

abbrev in_order : List Change
in_order = joins 3 ∷ joins 7 ∷ leaves 3 ∷ []

abbrev with_detour : List Change
with_detour = joins 3 ∷ leaves 3 ∷ joins 7 ∷ []

changes-Changed_example :
    Changed empty_hub (member_changes in_order nobody) (changes in_order empty_hub)
changes-Changed_example = changes-Changed in_order empty_hub nobody empty_hub-Stands

same_members : member_changes in_order nobody ≡ member_changes with_detour nobody
same_members j k = same k j
  where
    same : (k : ℕ) → member_changes in_order nobody k ≡ member_changes with_detour nobody k
    same k = ground arith

order_leaves_no_trace_example : changes in_order empty_hub ≡ changes with_detour empty_hub
order_leaves_no_trace_example =
    order_leaves_no_trace in_order with_detour empty_hub nobody empty_hub-Stands same_members

abbrev history : List (Act (List ℕ))
history =
    calls (joins 3)
    ∷ pushes (codes "a")
    ∷ calls (joins 1)
    ∷ receives 1 (codes "bc")
    ∷ pushes (codes "d")
    ∷ calls (leaves 3)
    ∷ pushes (codes "e")
    ∷ []

history-fits :
    All
      (Suits (tcp_service nets) (λ bytes. length bytes ≤ 10000) (λ bytes. length bytes ≤ 10000))
      history
history-fits = ground arith

tcp_push_delivers_example :
    Heard
      (tcp_service nets)
      empty_hub
      3
      (inbox (tcp_service nets) 3 (has empty_hub.connections 3) history)
      (in_turn (tcp_act nets) history empty_hub)
tcp_push_delivers_example =
    tcp_push_delivers nets 10000 history empty_hub 3 nets-Serves tt (λ i. refl) history-fits

history-IsMessage : All (Suits (ws_service nets) (IsMessage 10000) (IsMessage 10000)) history
unfolding plain_frame
history-IsMessage = ground arith

ws_push_delivers_example :
    Heard
      (ws_service nets)
      empty_hub
      1
      (inbox (ws_service nets) 1 (has empty_hub.connections 1) history)
      (in_turn (ws_act nets) history empty_hub)
ws_push_delivers_example =
    ws_push_delivers nets 10000 history empty_hub 1 nets-Serves tt (λ i. refl) history-IsMessage

abbrev busy_hub : Hub
busy_hub = record { connections = 1 ∷ 3 ∷ []; worlds = λ i. fresh_world; destroyed = λ i. false }

busy_hub-Sorted : Sorted busy_hub.connections
busy_hub-Sorted = ground arith

pusher_counts_example :
    let (result, h') = pusher_runner nets (until_quit 12 []) busy_hub in
    (result ≡ ok tt)
    × Sent
        (busy_hub.worlds 3)
        (heard (busy_hub.worlds 3) (if has busy_hub.connections 3 then numbers_text 12 0 else []))
        (h'.worlds 3)
pusher_counts_example =
    pusher_counts nets 10000 12 [] busy_hub 3 nets-Serves (omega arith) (omega arith)
      busy_hub-Sorted (λ i. refl)

ws_pusher_counts_example :
    let (result, h') = ws_pusher_runner nets (until_quit 12 []) busy_hub in
    (result ≡ ok tt)
    × Sent
        (busy_hub.worlds 3)
        (heard (busy_hub.worlds 3) (if has busy_hub.connections 3 then numbers_frames 12 0 else []))
        (h'.worlds 3)
ws_pusher_counts_example =
    ws_pusher_counts nets 10000 12 [] busy_hub 3 nets-Serves (omega arith) (omega arith)
      busy_hub-Sorted (λ i. refl)

-- The socket of connection 3 fails.
abbrev failing_net : Net
failing_net = record { answer = λ i n. failed; rounds = 20000 }

abbrev one_fails : ℕ → Net
one_fails k = if k == 3 then failing_net else eager_net

one_fails-Serves : (k : ℕ) → k ≢ 3 → Serves (one_fails k) 10000
one_fails-Serves k apart = let other : (k == 3) ≡ false = ground arith in rw other eager_net-Serves

broken_pipe_terminates_example :
    let pusher = (pusher_runner one_fails (false ∷ []) busy_hub).0 in
    (pusher ≡ err terminated) × ((tcp_push_main pusher (ok tt) []).0 ≡ err terminated)
broken_pipe_terminates_example =
    broken_pipe_terminates one_fails 10000 3 [] busy_hub (ok tt) [] one_fails-Serves (omega arith)
      refl (λ k. refl) (omega arith) refl refl

abandoned_connection_dangles_example :
    let worker =
      (run
        (push_handler nets 2)
        (broken_round ∷ [])
        []
        (record { session = busy_hub; socket_closed = false; is_active = true })).1 in
    (worker.is_active ≡ false)
    × (has worker.session.connections 2 ≡ true)
    × ((conn_push nets (codes "a") (length (codes "a")) (destroy 2 worker.session)).0 ≡ err fault)
abandoned_connection_dangles_example =
    abandoned_connection_dangles nets 10000 2 [] [] (codes "a") busy_hub (λ k apart. nets-Serves k)
      (omega arith) (λ k apart. refl) refl
