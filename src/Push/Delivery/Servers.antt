-- ===== src/Push/Delivery/Servers.antt =====
-- The two push servers: any history of their calls.
use cppsocks.Base.{ℕ, ◌^◌, ◌≤◌, ◌<◌, true, false, List, [], ◌∷◌, ◌++◌, append-nil, All, length}
use cppsocks.Base.{◌≡◌, refl, sym, ap₂, arith}
use mathlib.Core.Path.{subst}
use cppsocks.Base.Bytes.{IsText}
use cppsocks.Base.Outcome.{Result, ok}
use cppsocks.Base.Effect.{M, return, ◌>>◌}
use cppsocks.Frame.{make, make_text, opcode_text, opcode_binary}
use cppsocks.Frame.Wire.{plain_frame}
use cppsocks.Frame.Fields.{library_frames, payload_length-plain_frame}
use cppsocks.Tcp.Connection.{Net, World, send}
use cppsocks.Tcp.Connection.Faults.{send_closed}
use cppsocks.Tcp.Connection.Serving.{Serves}
use cppsocks.Http.Ws.{send_frame, send_data, send_text}
use cppsocks.Http.Ws.Sending.{make_whole, send_frame-Sent}
use cppsocks.Push.{
  Hub, add_conn, add_elem, del_conn, del_elem, conn_push, elem_push, push_handler, ws_push_handler,
  ws_push_on_data,
}
use cppsocks.Push.Registry.{has, Sorted}
use cppsocks.Push.Registry.Changes.{joins, leaves}
use cppsocks.Push.Delivery.{DeliversTo, by_state, send-DeliversTo}
use cppsocks.Push.Delivery.Histories.{
  Act, calls, pushes, receives, Wiring, act, acts, inbox, Works, Suits, Heard, history-Heard,
}

-- The calls of the two servers, one by one.
abbrev pub tcp_act : (ℕ → Net) → Act (List ℕ) → M Hub (Unit {0})
tcp_act nets (calls (joins i)) = (push_handler nets i).on_connect
tcp_act nets (calls (leaves i)) = (push_handler nets i).on_disconnect
tcp_act nets (pushes bytes) = conn_push nets bytes (length bytes)
tcp_act nets (receives i bytes) = (push_handler nets i).on_receive bytes (length bytes)

-- A message is pushed as a C string.
abbrev pub ws_act : (ℕ → Net) → Act (List ℕ) → M Hub (Unit {0})
ws_act nets (calls (joins i)) = (ws_push_handler nets i).on_connect
ws_act nets (calls (leaves i)) = (ws_push_handler nets i).on_disconnect
ws_act nets (pushes text) = elem_push nets (text ++ (0 ∷ []))
ws_act nets (receives i bytes) = (ws_push_handler nets i).on_data bytes (length bytes)

abbrev pub in_turn : {A S : Type 0} → (A → M S (Unit {0})) → List A → M S (Unit {0})
in_turn do_act [] = return tt
in_turn do_act (a ∷ later) = do_act a >> in_turn do_act later

abbrev pub tcp_service : (ℕ → Net) → Wiring (List ℕ)
tcp_service nets = record {
  push_to = λ bytes i. send (nets i) bytes (length bytes) >> return tt;
  answer_to = λ bytes i. send (nets i) bytes (length bytes) >> return tt;
  push_wire = λ bytes. bytes;
  answer_wire = λ bytes. bytes;
}

abbrev pub ws_service : (ℕ → Net) → Wiring (List ℕ)
ws_service nets = record {
  push_to = λ text i. send_text (nets i) (text ++ (0 ∷ [])) >> return tt;
  answer_to = λ bytes i. send_data (nets i) bytes (length bytes) >> return tt;
  push_wire = plain_frame true opcode_text;
  answer_wire = plain_frame true opcode_binary;
}

tcp_act-act : (nets : ℕ → Net) (a : Act (List ℕ)) → tcp_act nets a ≡ act (tcp_service nets) a
unfolding push_handler conn_push
tcp_act-act nets (calls (joins i)) = refl
tcp_act-act nets (calls (leaves i)) = refl
tcp_act-act nets (pushes bytes) = refl
tcp_act-act nets (receives i bytes) = refl

ws_act-act : (nets : ℕ → Net) (a : Act (List ℕ)) → ws_act nets a ≡ act (ws_service nets) a
unfolding ws_push_handler ws_push_on_data elem_push add_conn add_elem del_conn del_elem
ws_act-act nets (calls (joins i)) = refl
ws_act-act nets (calls (leaves i)) = refl
ws_act-act nets (pushes bytes) = refl
ws_act-act nets (receives i bytes) = refl

in_turn-acts :
    {Q : Type 0} (service : Wiring Q) (do_act : Act Q → M Hub (Unit {0}))
    → ((a : Act Q) → do_act a ≡ act service a)
    → (later : List (Act Q)) → in_turn do_act later ≡ acts service later
in_turn-acts service do_act same [] = refl
in_turn-acts service do_act same (a ∷ later) =
    ap₂ (λ m k. m >> k) (same a) (in_turn-acts service do_act same later)

-- A message that fits in a frame, which fits in what is followed of the socket.
abbrev pub IsMessage : ℕ → List ℕ → Type 0
IsMessage room text =
    IsText text
    × (length text < 2 ^ 16)
    × (length (plain_frame true opcode_text text) ≤ room)
    × (length (plain_frame true opcode_binary text) ≤ room)

module _ (nets : ℕ → Net) (room : ℕ) (serves : (i : ℕ) → Serves (nets i) room) where
  pub whole_send :
      (bytes : List ℕ) (i : ℕ)
      → length bytes ≤ room
      → DeliversTo (send (nets i) bytes (length bytes) >> return tt) bytes
  whole_send bytes i fits =
      subst (λ m. DeliversTo (send (nets i) m (length bytes) >> return tt) bytes) (append-nil bytes)
        (send-DeliversTo (nets i) room bytes [] (serves i) fits)

  pub tcp-Works :
      Works (tcp_service nets) (λ bytes. length bytes ≤ room) (λ bytes. length bytes ≤ room)
  tcp-Works = record { push_works = whole_send; answer_works = whole_send }

  send_frame_closed :
      (i : ℕ) (frame : Result (List ℕ)) (opcode : ℕ) (payload : List ℕ) (w : World)
      → frame ≡ ok (plain_frame true opcode payload)
      → length payload < 2 ^ 16
      → w.closed ≡ true
      → send_frame (nets i) frame w ≡ (ok (length payload), w)
  unfolding send_frame
  send_frame_closed i frame opcode payload w e small shut =
      rw
        (
          e,
          send_closed (nets i) (plain_frame true opcode payload)
              (length (plain_frame true opcode payload)) w (omega (arith, (serves i).enough)) shut,
          payload_length-plain_frame true opcode payload small,
        )
        refl

  pub frame-DeliversTo :
      (i : ℕ) (frame : Result (List ℕ)) (opcode : ℕ) (payload : List ℕ)
      → frame ≡ ok (plain_frame true opcode payload)
      → length payload < 2 ^ 16
      → length (plain_frame true opcode payload) ≤ room
      → DeliversTo (send_frame (nets i) frame >> return tt) (plain_frame true opcode payload)
  frame-DeliversTo i frame opcode payload e small fits w =
      by_state (send_frame (nets i) frame) (plain_frame true opcode payload) (length payload)
        (length payload) w (send_frame_closed i frame opcode payload w e small)
        (λ live. send_frame-Sent (nets i) room (serves i) w live frame opcode payload e small fits)

  pub ws-Works : Works (ws_service nets) (IsMessage room) (IsMessage room)
  unfolding send_text send_data
  ws-Works = record {
    push_works = λ text i (plain, small, fits, _).
        frame-DeliversTo i (make_text (text ++ (0 ∷ []))) opcode_text text
          (library_frames 0 text [] (omega arith) small plain).3 small fits;
    answer_works = λ bytes i (_, small, _, fits).
        frame-DeliversTo i (make bytes (length bytes) true opcode_binary) opcode_binary bytes
          (make_whole opcode_binary bytes (omega arith) small) small fits;
  }

-- The TCP push server, in any history in which connections come and go, messages are pushed, and
-- connections are answered, and each of these calls ends before the next one begins. The manager's
-- mutex sees to that for all but the answers; histories in which a push comes between the writes of
-- an answer are left out. Every call returns, and what goes out
-- on a connection that is open is each message that is pushed while it is registered, and each of
-- its own messages that it receives, in that order; nothing goes out on a closed one. The sockets
-- make progress and are followed for more rounds than a message has bytes, no connection is gone,
-- and the manager's elements are in order at first.
pub tcp_push_delivers :
    (nets : ℕ → Net) (room : ℕ) (history : List (Act (List ℕ))) (h : Hub) (j : ℕ)
    → ((i : ℕ) → Serves (nets i) room)
    → Sorted h.connections
    → ((i : ℕ) → h.destroyed i ≡ false)
    → All
        (Suits (tcp_service nets) (λ bytes. length bytes ≤ room) (λ bytes. length bytes ≤ room))
        history
    → Heard
        (tcp_service nets)
        h
        j
        (inbox (tcp_service nets) j (has h.connections j) history)
        (in_turn (tcp_act nets) history h)
tcp_push_delivers nets room history h j serves sorted alive fits =
    subst
      (λ m.
        Heard (tcp_service nets) h j (inbox (tcp_service nets) j (has h.connections j) history)
          (m h))
      (sym (in_turn-acts (tcp_service nets) (tcp_act nets) (tcp_act-act nets) history))
      (history-Heard (tcp_service nets) (λ bytes. length bytes ≤ room)
        (λ bytes. length bytes ≤ room) (tcp-Works nets room serves) j history h sorted alive fits)

-- The WebSocket push server, in the same way: a pushed text goes out as one text frame of the
-- format, and an answer as one binary frame. Each message has no NUL, 16 bits can count it, and
-- its frames have no more bytes than the rounds of a socket allow.
pub ws_push_delivers :
    (nets : ℕ → Net) (room : ℕ) (history : List (Act (List ℕ))) (h : Hub) (j : ℕ)
    → ((i : ℕ) → Serves (nets i) room)
    → Sorted h.connections
    → ((i : ℕ) → h.destroyed i ≡ false)
    → All (Suits (ws_service nets) (IsMessage room) (IsMessage room)) history
    → Heard
        (ws_service nets)
        h
        j
        (inbox (ws_service nets) j (has h.connections j) history)
        (in_turn (ws_act nets) history h)
ws_push_delivers nets room history h j serves sorted alive fits =
    subst
      (λ m.
        Heard (ws_service nets) h j (inbox (ws_service nets) j (has h.connections j) history) (m h))
      (sym (in_turn-acts (ws_service nets) (ws_act nets) (ws_act-act nets) history))
      (history-Heard (ws_service nets) (IsMessage room) (IsMessage room) (ws-Works nets room serves)
        j history h sorted alive fits)
