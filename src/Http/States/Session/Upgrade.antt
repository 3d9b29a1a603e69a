-- ===== src/Http/States/Session/Upgrade.antt =====
-- A connection to the HTTP server that becomes a WebSocket: the request in chunks, and then
-- messages of one frame each.
use cppsocks.Base.{ℕ, ◌-◌, ◌≤◌, ◌<◌, true, false, List, [], ◌∷◌, ◌++◌}
use cppsocks.Base.{length, drop, replicate, length-replicate, ◌≡◌, refl, sym, ap, ◌∙◌, arith}
use cppsocks.Base.Text.{Text}
use cppsocks.Base.Outcome.{ok}
use cppsocks.Frame.Wire.{Key, client_frame}
use cppsocks.Tcp.Connection.{Holder, Net}
use cppsocks.Tcp.Worker.{Round, loop, max_size}
use cppsocks.Tcp.Worker.Sessions.{
  Event, chunk, event_round, rounds_of, bytes_of, Arrive, loop-Arrived, loop_chunk,
}
use cppsocks.Http.Request.{RequestInfo, HeadersMap, no_request, is_ws_request, max_path_len}
use cppsocks.Http.Request.Parse.{request_text, request_info, headers_of, IsRequest}
use cppsocks.Http.Ws.{fresh_ws_state, ws_on_enter}
use cppsocks.Http.Ws.Receive.{in_state, receive}
use cppsocks.Http.States.{
  HandlersOn, HttpSessionOn, ws_state, recv_size, new_session, on_receive, tcp_server_handler,
  state_on_receive, state_on_disconnect, advance, on_ws,
}
use cppsocks.Http.States.Requests.{answering, ws_request_upgraded}
use cppsocks.Http.States.Step.{waiting}
use cppsocks.Http.States.Session.{Unfinished, Holds, room_for, keeps_waiting}

module _ {S : Type 0} ⦃holder : Holder S⦄ (net : Net) (handlers : HandlersOn S)
    (path query version : Text) (hs : HeadersMap) (w w' : S)
    (well : IsRequest path query version hs) (short_path : length path < max_path_len)
    (upgrade : is_ws_request (headers_of [] hs) ≡ true)
    (entered : ws_on_enter net handlers.ws_handler handlers.crypto (headers_of [] hs) w
      ≡ (ok tt, w')) where
  abbrev pub upgraded : HttpSessionOn S
  upgraded = answering (ws_state fresh_ws_state) w' (request_info path (headers_of [] hs))

  pub completes :
      (received bytes after : List ℕ) (s : HttpSessionOn S)
      → Holds net handlers w no_request received s
      → received ++ bytes ≡ request_text path query version hs
      → length (received ++ bytes) < recv_size
      → on_receive net handlers (bytes ++ after) (length bytes) s ≡ (ok tt, upgraded)
  completes received bytes after s (k, total, e) parts small =
      let (k', total', split) = room_for received bytes k total small in
      ap (on_receive net handlers (bytes ++ after) (length bytes))
        (e ∙ ap (λ m. waiting (received ++ m) (length received) w no_request) split)
      ∙ ws_request_upgraded net handlers path query version hs received (replicate (length bytes) 0)
          bytes after k' w w' no_request well short_path (sym (length-replicate (length bytes) x))
          parts (omega (arith, ap length parts)) upgrade entered
    where
      x : ℕ
      x = 0

  -- The worker's loop over the chunks of the request.
  pub loop_upgrades :
      (es : List Event) (last : List ℕ) (rest : List Round) (buf : List ℕ)
      → Arrive Unfinished [] es
      → 0 < length last
      → length last ≤ max_size
      → bytes_of es ++ last ≡ request_text path query version hs
      → length (request_text path query version hs) < recv_size
      → holder.shut w ≡ false
      → (buf' : List ℕ) × (loop
            (tcp_server_handler net handlers)
            (rounds_of es (event_round (chunk last) ∷ rest))
            buf
            (new_session w)
          ≡ loop (tcp_server_handler net handlers) rest buf' upgraded)
  unfolding tcp_server_handler
  loop_upgrades es last rest buf arrive pos bound parts small still_open =
      let (buf', s', looped, h) =
        loop-Arrived (tcp_server_handler net handlers) (Holds net handlers w no_request) Unfinished
          (keeps_waiting net handlers w no_request)
          (λ received s h. ap (λ s. holder.shut s.world) h.2 ∙ still_open) es
          (event_round (chunk last) ∷ rest) [] buf (new_session w) arrive
          (recv_size - 1, refl, refl) in
      (
        last ++ drop (length last) buf',
        looped
            ∙ loop_chunk (tcp_server_handler net handlers) last rest buf' s' upgraded
                (ap (λ s. holder.shut s.world) h.2 ∙ still_open) pos bound
                (completes (bytes_of es) last (drop (length last) buf') s' h parts
                  (omega (arith, ap length parts))),
      )

-- A connection that exchanges frames, between two messages.
abbrev pub between : {S : Type 0} → ℕ → S → RequestInfo → HttpSessionOn S
between opcode w info = answering (ws_state (record { opcode = opcode; in_buf = [] })) w info

-- A call that brings one whole frame.
pub on_receive_frame :
    {S : Type 0} ⦃holder : Holder S⦄ (net : Net) (handlers : HandlersOn S) (opcode old : ℕ)
    (key : Key) (payload after : List ℕ) (w w' : S) (info : RequestInfo)
    → receive net handlers.ws_handler true opcode
        (record { key = key; payload = payload; after = after })
        (in_state old [] w)
      ≡ (ok tt, in_state opcode [] w')
    → let frame = client_frame true opcode key payload in
      on_receive net handlers (frame ++ after) (length frame) (between old w info)
      ≡ (ok tt, between opcode w' info)
unfolding on_receive state_on_receive on_ws advance
on_receive_frame net handlers opcode old key payload after w w' info e = rw e refl

-- A chunk that is one whole frame: what the WebSocket state does with it is what the worker's
-- loop does with it.
pub loop_frame :
    {S : Type 0} ⦃holder : Holder S⦄ (net : Net) (handlers : HandlersOn S) (opcode : ℕ) (old : ℕ)
    (key : Key) (payload buf : List ℕ) (rest : List Round) (w w' : S) (info : RequestInfo)
    → holder.shut w ≡ false
    → let frame = client_frame true opcode key payload in
      0 < length frame
      → length frame ≤ max_size
      → receive net handlers.ws_handler true opcode
          (record { key = key; payload = payload; after = drop (length frame) buf })
          (in_state old [] w)
        ≡ (ok tt, in_state opcode [] w')
      → loop
          (tcp_server_handler net handlers)
          (event_round (chunk frame) ∷ rest)
          buf
          (between old w info)
        ≡ loop
            (tcp_server_handler net handlers)
            rest
            (frame ++ drop (length frame) buf)
            (between opcode w' info)
unfolding tcp_server_handler
loop_frame net handlers opcode old key payload buf rest w w' info still_open pos bound e =
    loop_chunk (tcp_server_handler net handlers) (client_frame true opcode key payload) rest buf
      (between old w info) (between opcode w' info) still_open pos bound
      (on_receive_frame net handlers opcode old key payload
        (drop (length (client_frame true opcode key payload)) buf) w w' info e)

pub disconnect_between :
    {S : Type 0} ⦃holder : Holder S⦄ (net : Net) (handlers : HandlersOn S) (opcode : ℕ) (w w' : S)
    (info : RequestInfo)
    → handlers.ws_handler.on_disconnect w ≡ (ok tt, w')
    → (tcp_server_handler net handlers).on_disconnect (between opcode w info)
      ≡ (ok tt, between opcode w' info)
unfolding tcp_server_handler state_on_disconnect
disconnect_between net handlers opcode w w' info e = rw e refl

-- A client that goes before its request is complete.
pub disconnect_waiting :
    {S : Type 0} ⦃holder : Holder S⦄ (net : Net) (handlers : HandlersOn S) (recv_buf : List ℕ)
    (num_recv : ℕ) (w : S) (info : RequestInfo)
    → (tcp_server_handler net handlers).on_disconnect (waiting recv_buf num_recv w info)
      ≡ (ok tt, waiting recv_buf num_recv w info)
unfolding tcp_server_handler state_on_disconnect
disconnect_waiting net handlers recv_buf num_recv w info = refl
