-- ===== src/Push/WsServer/Deeds.antt =====
-- What one call of a client's handler does to its session, and to the manager.
use cppsocks.Base.{ℕ, suc, ◌+◌, false, List, [], ◌++◌, length, replicate}
use cppsocks.Base.{◌≡◌, refl, sym, ap, ◌∙◌, arith}
use cppsocks.Base.Outcome.{ok}
use cppsocks.Base.Effect.{M, continue, return, ◌>>◌}
use cppsocks.Tcp.Connection.{Net}
use cppsocks.Tcp.Connection.Serving.{Serves}
use cppsocks.Http.Request.{RequestInfo, no_request}
use cppsocks.Http.Request.Parse.{request_info, headers_of}
use cppsocks.Http.Ws.{Crypto}
use cppsocks.Http.Ws.Enter.{ws_on_enter-calls}
use cppsocks.Http.Ws.{ws_on_enter}
use cppsocks.Http.Ws.Receive.{kind_opcode, receive_whole}
use cppsocks.Http.States.{HandlersOn, HttpSessionOn, recv_size, tcp_server_handler}
use cppsocks.Http.States.Step.{waiting}
use cppsocks.Http.States.Session.{keeps_waiting}
use cppsocks.Http.States.Session.Upgrade.{
  between, completes, on_receive_frame, disconnect_between, disconnect_waiting,
}
use cppsocks.Http.Server.{http_handler_null, serve, create_server_handler}
use cppsocks.Http.Server.Echo.{Message, frame_of}
use cppsocks.Push.{
  Hub, insert, erase, add_conn, add_elem, del_elem, del_conn, connection_of, ws_push_handler,
}
use cppsocks.Push.Delivery.Histories.{acts}
use cppsocks.Push.WsServer.Calls.{answered, answered_hub, handed_over}
use cppsocks.Push.WsServer.{Own, with_hub, own, ws_push_service, create_push_handler}
use cppsocks.Push.WsServer.Client.{
  Upgrade, IsUpgrade, Deed, part, asks, says, goes, Phase, asking, talking, gone, next_phase,
  handshake, message, IsSaid, May, acts_of, site_service,
}

abbrev handlers_of : (ℕ → Net) → Crypto → ℕ → HandlersOn Hub
handlers_of nets crypto i = record {
  do_get = http_handler_null;
  ws_handler = ws_push_handler nets i;
  crypto = crypto;
}

-- A client's session in a phase: a buffer that holds what has arrived, with zeros behind it, or an
-- empty buffer for the next message.
abbrev pub IsAt : Phase → Own → Type 0
IsAt (asking received) s =
    (k : ℕ) × (length received + suc k ≡ recv_size)
    × (s ≡ waiting (received ++ replicate (suc k) 0) (length received) tt no_request)
IsAt talking s = (opcode : ℕ) × (info : RequestInfo) × (s ≡ between opcode tt info)
IsAt gone s = Unit {0}

module _ (nets : ℕ → Net) (room : ℕ) (crypto : Crypto)
    (serves : (i : ℕ) → Serves (nets i) room) where
  abbrev pub deed_on : ℕ → Deed → M (HttpSessionOn Hub) (Unit {0})
  deed_on i (part bytes after) =
      (ws_push_service nets crypto i).handler.on_receive (bytes ++ after) (length bytes)
  deed_on i (asks u last after) =
      (ws_push_service nets crypto i).handler.on_receive (last ++ after) (length last)
  deed_on i (says m after) =
      (ws_push_service nets crypto i).handler.on_receive (frame_of m ++ after) (length (frame_of m))
  deed_on i goes = (ws_push_service nets crypto i).handler.on_disconnect

  -- The call returns, with the session in the next phase, and the manager and the connections as
  -- the acts leave them.
  abbrev pub Did : ℕ → Phase → Deed → Own → Hub → Type 0
  Did i phase d s h =
      (s' : Own) × (h' : Hub) × (deed_on i d (with_hub s h) ≡ (ok tt, with_hub s' h'))
      × IsAt (next_phase phase d) s'
      × (acts (site_service nets crypto) (acts_of i phase d) h ≡ (ok tt, h'))
      × (h'.destroyed ≡ h.destroyed)

  part-Did :
      (i : ℕ) (received bytes after : List ℕ) (s : Own) (h : Hub)
      → IsAt (asking received) s
      → May room crypto (asking received) (part bytes after)
      → Did i (asking received) (part bytes after) s h
  unfolding ws_push_service create_push_handler serve create_server_handler tcp_server_handler
  part-Did i received bytes after s h (k, total, e) (unfinished, pos, bound) =
      let (s', called, (k', total', e')) =
        keeps_waiting ⦃holder = connection_of i⦄ (nets i) (handlers_of nets crypto i) h no_request
          received bytes after (with_hub s h) pos bound unfinished
          (k, total, ap (λ s. with_hub s h) e) in
      (
        own s',
        h,
        called ∙ ap (λ s. (ok tt, s)) (e' ∙ sym (ap (λ s. with_hub (own s) h) e')),
        (k', total', ap own e'),
        refl,
        refl,
      )

  greeted :
      (i : ℕ) (u : Upgrade) (h : Hub)
      → IsUpgrade room crypto u
      → h.destroyed i ≡ false
      → ws_on_enter ⦃holder = connection_of i⦄
          (nets i)
          (ws_push_handler nets i)
          crypto
          (headers_of [] u.headers)
          h
        ≡ (
          ok tt,
          record (answered_hub nets room crypto serves i (handshake u.key) h) {
            connections = insert i h.connections;
          },
        )
  unfolding ws_push_handler add_elem
  greeted i u h good alive =
      ap (λ m. m h)
        (ws_on_enter-calls (nets i) crypto ⦃holder = connection_of i⦄ (ws_push_handler nets i)
          (headers_of [] u.headers) u.key u.key_rest good.long good.found)
      ∙ ap (λ r. continue r (λ _. add_elem i))
          (answered nets room crypto serves i (handshake u.key) h good.answer_fits alive)

  asks-Did :
      (i : ℕ) (received last after : List ℕ) (u : Upgrade) (s : Own) (h : Hub)
      → IsAt (asking received) s
      → May room crypto (asking received) (asks u last after)
      → h.destroyed i ≡ false
      → Did i (asking received) (asks u last after) s h
  unfolding ws_push_service create_push_handler serve create_server_handler tcp_server_handler
      add_conn
  asks-Did i received last after u s h (k, total, e) (good, whole) alive =
      let info = request_info u.path (headers_of [] u.headers) in
      let h' = record (answered_hub nets room crypto serves i (handshake u.key) h) {
        connections = insert i h.connections;
      } in
      (
        between 0 tt info,
        h',
        completes ⦃holder = connection_of i⦄ (nets i) (handlers_of nets crypto i) u.path u.query
            u.version u.headers h h' good.well good.short_path good.wanted
            (greeted i u h good alive) received last after (with_hub s h)
            (k, total, ap (λ s. with_hub s h) e) whole (omega (arith, ap length whole, good.fits)),
        (0, info, refl),
        ap (λ r. continue r (λ _. add_conn i >> return tt))
            (answered nets room crypto serves i (handshake u.key) h good.answer_fits alive),
        refl,
      )

  says-Did :
      (i : ℕ) (m : Message) (after : List ℕ) (s : Own) (h : Hub)
      → IsAt talking s
      → IsSaid room crypto m
      → h.destroyed i ≡ false
      → Did i talking (says m after) s h
  unfolding ws_push_service create_push_handler serve create_server_handler tcp_server_handler
  says-Did i m after s h (opcode, info, e) (is_key, are_bytes, asked) alive =
      let h' = answered_hub nets room crypto serves i (message m.kind m.payload) h in
      (
        between (kind_opcode m.kind) tt info,
        h',
        ap (deed_on i (says m after)) (ap (λ s. with_hub s h) e)
            ∙ on_receive_frame ⦃holder = connection_of i⦄ (nets i) (handlers_of nets crypto i)
                (kind_opcode m.kind) opcode m.key m.payload after h h' info
                (receive_whole ⦃holder = connection_of i⦄ (nets i) (ws_push_handler nets i) m.kind
                  opcode (record { key = m.key; payload = m.payload; after = after }) h h'
                  (is_key, are_bytes) (omega (arith, asked.0))
                  (handed_over nets room crypto serves i m.kind m.payload h asked alive)),
        (kind_opcode m.kind, info, refl),
        ap (λ r. continue r (λ _. return tt))
            (answered nets room crypto serves i (message m.kind m.payload) h asked alive),
        refl,
      )

  goes-Did :
      (i : ℕ) (phase : Phase) (s : Own) (h : Hub)
      → IsAt phase s
      → May room crypto phase goes
      → Did i phase goes s h
  unfolding ws_push_service create_push_handler serve create_server_handler ws_push_handler del_conn
      del_elem
  goes-Did i (asking received) s h (k, total, e) t = (
    s,
    h,
    ap (deed_on i goes) (ap (λ s. with_hub s h) e)
        ∙ disconnect_waiting ⦃holder = connection_of i⦄ (nets i) (handlers_of nets crypto i) _ _ h
            no_request
        ∙ ap (λ s. (ok tt, with_hub s h)) (sym e),
    tt,
    refl,
    refl,
  )
  goes-Did i talking s h (opcode, info, e) t =
      let h' = record h { connections = erase i h.connections } in
      (
        s,
        h',
        ap (deed_on i goes) (ap (λ s. with_hub s h) e)
            ∙ disconnect_between ⦃holder = connection_of i⦄ (nets i) (handlers_of nets crypto i)
                opcode h h' info refl
            ∙ ap (λ s. (ok tt, with_hub s h')) (sym e),
        tt,
        refl,
        refl,
      )
  goes-Did i gone s h t may = absurd may

  pub deed-Did :
      (i : ℕ) (phase : Phase) (d : Deed) (s : Own) (h : Hub)
      → IsAt phase s
      → May room crypto phase d
      → h.destroyed i ≡ false
      → Did i phase d s h
  deed-Did i (asking received) (part bytes after) s h at may alive =
      part-Did i received bytes after s h at may
  deed-Did i (asking received) (asks u last after) s h at may alive =
      asks-Did i received last after u s h at may alive
  deed-Did i (asking received) (says m after) s h at may alive = absurd may
  deed-Did i talking (part bytes after) s h at may alive = absurd may
  deed-Did i talking (asks u last after) s h at may alive = absurd may
  deed-Did i talking (says m after) s h at may alive = says-Did i m after s h at may.0 alive
  deed-Did i gone (part bytes after) s h at may alive = absurd may
  deed-Did i gone (asks u last after) s h at may alive = absurd may
  deed-Did i gone (says m after) s h at may alive = absurd may
  deed-Did i phase goes s h at may alive = goes-Did i phase s h at may
