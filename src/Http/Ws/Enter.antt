-- ===== src/Http/Ws/Enter.antt =====
-- `HttpWsState::onEnter`: the server's side of the opening handshake.
use cppsocks.Base.{ℕ, ◌≤◌, false, some, List, [], ◌∷◌, ◌++◌, length, append_assoc}
use cppsocks.Base.{◌≡◌, refl, sym, ap, ◌∙◌, take-append_length, take}
use cppsocks.Base.Bytes.{codes}
use cppsocks.Base.Text.{Text}
use cppsocks.Base.Effect.{◌>>◌}
use cppsocks.Tcp.Connection.{Holder, connection_alone, Net, World}
use cppsocks.Tcp.Connection.Laws.{Sent}
use cppsocks.Http.Request.{HeadersMap, find}
use cppsocks.Http.Response.{newline, put}
use cppsocks.Tcp.Connection.Serving.{Serves}
use cppsocks.Http.Response.Emits.{put-Emits}
use cppsocks.Http.Ws.{
  WsHandler, WsHandlerOn, Crypto, ws_guid, create_accept_key, protocol_line, switching_text,
  ws_on_enter,
}

-- A response's header: its lines, each ended by CRLF.
abbrev pub response_text : List Text → Text
response_text [] = []
response_text (line ∷ more) = line ++ (newline ++ response_text more)

-- The header that accepts the upgrade, RFC 6455 section 4.2.2, for a value of
-- `Sec-WebSocket-Accept`. An empty subprotocol has no line.
abbrev pub accept_lines : Text → Text → List Text
accept_lines [] accept =
    codes "HTTP/1.1 101 Switching Protocols"
    ∷ codes "Upgrade: websocket"
    ∷ codes "Connection: Upgrade"
    ∷ codes "Sec-WebSocket-Version: 13"
    ∷ (codes "Sec-WebSocket-Accept: " ++ accept)
    ∷ []
    ∷ []
accept_lines (c ∷ subprotocol) accept =
    codes "HTTP/1.1 101 Switching Protocols"
    ∷ codes "Upgrade: websocket"
    ∷ codes "Connection: Upgrade"
    ∷ codes "Sec-WebSocket-Version: 13"
    ∷ (codes "Sec-WebSocket-Protocol: " ++ (c ∷ subprotocol))
    ∷ (codes "Sec-WebSocket-Accept: " ++ accept)
    ∷ []
    ∷ []

with_line : Text → Text → Text
with_line line accept =
    codes "HTTP/1.1 101 Switching Protocols"
    ++ (newline
        ++ (codes "Upgrade: websocket"
            ++ (newline
                ++ (codes "Connection: Upgrade"
                    ++ (newline
                        ++ (codes "Sec-WebSocket-Version: 13"
                            ++ (newline
                                ++ (line
                                    ++ (codes "Sec-WebSocket-Accept: "
                                        ++ (accept ++ (newline ++ newline)))))))))))

with_protocol :
    {S : Type 0} ⦃holder : Holder S⦄ (net : Net) (handler : WsHandlerOn S)
    (subprotocol accept : Text)
    → with_line (protocol_line net handler subprotocol) accept
      ≡ response_text (accept_lines subprotocol accept)
unfolding with_line
with_protocol net handler [] accept = refl
with_protocol net handler (c ∷ name) accept =
    ap
      (λ t.
        codes
          "HTTP/1.1 101 Switching Protocols\r\nUpgrade: websocket\r\nConnection: Upgrade\r\nSec-WebSocket-Version: 13\r\nSec-WebSocket-Protocol: "
        ++ t)
      (append_assoc (c ∷ name) newline
        (codes "Sec-WebSocket-Accept: " ++ (accept ++ (newline ++ newline))))

module _ (net : Net) (crypto : Crypto) where
  switching_lines :
      {S : Type 0} ⦃holder : Holder S⦄ (handler : WsHandlerOn S) (key rest : Text)
      → length key ≡ 24
      → switching_text net handler crypto (key ++ rest)
        ≡ response_text
            (accept_lines handler.subprotocol (crypto.base64 (crypto.sha1 (key ++ ws_guid))))
  unfolding create_accept_key with_line
  switching_lines handler key rest long =
      ap (λ k. switched (crypto.base64 (crypto.sha1 (k ++ ws_guid)))) first_24
      ∙ with_protocol net handler handler.subprotocol (crypto.base64 (crypto.sha1 (key ++ ws_guid)))
    where
      switched : Text → Text
      switched accept = with_line (protocol_line net handler handler.subprotocol) accept

      first_24 : take 24 (key ++ rest) ≡ key
      first_24 = ap (λ n. take n (key ++ rest)) (sym long) ∙ take-append_length key rest

  -- Where there is a key, the response goes out and the application is called.
  pub ws_on_enter-calls :
      {S : Type 0} ⦃holder : Holder S⦄ (handler : WsHandlerOn S) (headers : HeadersMap)
      (key rest : Text)
      → length key ≡ 24
      → find (codes "Sec-WebSocket-Key") headers ≡ some (key ++ rest)
      → ws_on_enter net handler crypto headers ≡ (
          holder.call (Unit {0}) (
            put net (
              response_text
                (accept_lines handler.subprotocol (crypto.base64 (crypto.sha1 (key ++ ws_guid))))))
          >> handler.on_connect)
  unfolding ws_on_enter
  ws_on_enter-calls handler headers key rest long found =
      rw (ws_on_enter, found, switching_lines handler key rest long) refl

  -- On an open connection over a socket that makes progress and is followed for more rounds than
  -- the response has bytes: where the request's key begins with 24 characters, the response that
  -- accepts them is on the wire before the application is told of the connection. What follows
  -- the 24 characters, such as the `\r` that parsing leaves there, plays no part.
  pub ws_handshake :
      (room : ℕ) (serves : Serves net room) (handler : WsHandler) (headers : HeadersMap)
      (key rest : Text) (w : World)
      → w.closed ≡ false
      → length key ≡ 24
      → length (
          response_text
            (accept_lines handler.subprotocol (crypto.base64 (crypto.sha1 (key ++ ws_guid)))))
        ≤ room
      → find (codes "Sec-WebSocket-Key") headers ≡ some (key ++ rest)
      → (w' : World) × (ws_on_enter net handler crypto headers w ≡ handler.on_connect w')
        × Sent w
            (response_text
              (accept_lines handler.subprotocol (crypto.base64 (crypto.sha1 (key ++ ws_guid)))))
            w'
  unfolding ws_on_enter
  ws_handshake room serves handler headers key rest w still_open long fits found =
      let (w', sent, s) = put-Emits net room serves _ fits w still_open in
      (w', rw (ws_on_enter, found, switching_lines handler key rest long, sent), s)
