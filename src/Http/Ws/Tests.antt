-- ===== src/Http/Ws/Tests.antt =====
-- WebSocket connections with concrete frames and handlers.
use cppsocks.Base.{true, false, some, [], ◌∷◌, ◌++◌, length, ◌≡◌, refl, arith, take}
use cppsocks.Base.Bytes.{codes, text_eq}
use cppsocks.Base.Text.{Text}
use cppsocks.Base.Outcome.{ok, err, thrown, runtime_error}
use cppsocks.Base.Effect.{return, ◌>>◌}
use cppsocks.Frame.{opcode_binary, opcode_text, opcode_continuation, opcode_connection_ping}
use cppsocks.Frame.Wire.{Key, client_frame, plain_frame}
use cppsocks.Tcp.Connection.{connection_alone, World}
use cppsocks.Tcp.Connection.Laws.{Sent}
use cppsocks.Tcp.Connection.Tests.{eager_net, fresh_world}
use cppsocks.Http.Request.{find, emplace}
use cppsocks.Http.Response.Tests.{eager_net-Serves}
use cppsocks.Http.Request.Tests.{client_key, ws_headers}
use cppsocks.Http.Request.Parse.{headers_of}
use cppsocks.Http.Ws.{
  WsHandler, Crypto, ws_guid, ws_echo_handler, ws_on_enter, ws_on_receive, send_data, send_text,
  ws_close,
}
use cppsocks.Http.Ws.Receive.{
  Fragment, text, in_state, kind_opcode, receive, receive_rest, fragments_reassembled,
}
use cppsocks.Http.Ws.Sending.{ws_connection_sends, ws_echo}
use cppsocks.Http.Ws.Enter.{response_text, accept_lines, ws_handshake}
use cppsocks.Http.Ws.Reads.{read_length_ignored}
use cppsocks.Http.Ws.Control.{
  ws_ignores_short_input, empty_first_fragment_throws, ping_ends_message, ping_reply_is_bare,
}

-- A handler that keeps what it is handed.
abbrev pub recording_handler : WsHandler
recording_handler = record {
  on_connect = return tt;
  on_data = λ buf len w. (ok tt, record w { app = w.app ++ take len buf });
  on_text = λ buf w. (ok tt, record w { app = w.app ++ buf });
  on_disconnect = return tt;
  subprotocol = codes "chat";
  close_connection = ws_close eager_net;
}

abbrev pub zero_key : Key
zero_key = record { k0 = 1; k1 = 2; k2 = 3; k3 = 4 }

abbrev fragment : Text → Fragment
fragment payload = record { key = zero_key; payload = payload; after = 9 ∷ [] }

fragments_reassembled_example :
    ((receive eager_net recording_handler false (kind_opcode text) (fragment (codes "He"))
        >> receive_rest eager_net recording_handler (fragment [] ∷ []) (fragment (codes "llo")))
      (in_state 0 [] fresh_world))
    ≡ (
      ok tt,
      in_state (kind_opcode text) [] (record fresh_world { app = codes "Hello" ++ (0 ∷ []) }),
    )
fragments_reassembled_example =
    fragments_reassembled eager_net recording_handler text (fragment (codes "He"))
      (fragment [] ∷ []) (fragment (codes "llo")) 0 fresh_world
      (record fresh_world { app = codes "Hello" ++ (0 ∷ []) }) (ground arith) (ground arith)
      (ground arith) (omega arith) (omega arith) refl

abbrev hello_frame : Text
hello_frame = client_frame true opcode_text zero_key (codes "Hi")

-- Two messages that come in one read.
read_length_ignored_example :
    ws_on_receive eager_net recording_handler
      (hello_frame ++ (hello_frame ++ (9 ∷ [])))
      16
      (in_state 0 [] fresh_world)
    ≡ (ok tt, in_state opcode_text [] (record fresh_world { app = codes "Hi" ++ (0 ∷ []) }))
read_length_ignored_example =
    read_length_ignored eager_net recording_handler text 0 zero_key (codes "Hi")
      (hello_frame ++ (9 ∷ [])) 16 fresh_world (record fresh_world { app = codes "Hi" ++ (0 ∷ []) })
      (omega arith) (ground arith) (ground arith) (omega arith) refl

ws_connection_sends_example :
    ((w' : World) × (send_data eager_net (codes "Hi" ++ []) (length (codes "Hi")) fresh_world
        ≡ (ok (length (codes "Hi")), w'))
      × Sent fresh_world (plain_frame true opcode_binary (codes "Hi")) w')
    × ((w' : World) × (send_text eager_net (codes "Hi" ++ (0 ∷ [])) fresh_world
          ≡ (ok (length (codes "Hi")), w'))
        × Sent fresh_world (plain_frame true opcode_text (codes "Hi")) w')
    × ((w' : World) × (ws_close eager_net fresh_world ≡ (ok tt, record w' { closed = true }))
        × Sent fresh_world (0x88 ∷ 0x02 ∷ 0x00 ∷ 0x00 ∷ []) w')
unfolding plain_frame
ws_connection_sends_example =
    ws_connection_sends eager_net 10000 eager_net-Serves fresh_world refl (codes "Hi") []
      (ground arith) (omega arith) (omega arith) (omega arith) (omega arith)

ws_echo_example :
    (w' : World) × (receive eager_net
        (ws_echo_handler eager_net)
        true
        (kind_opcode text)
        (fragment (codes "Hi"))
        (in_state 0 [] fresh_world)
      ≡ (ok tt, in_state (kind_opcode text) [] w'))
    × Sent fresh_world (plain_frame true (kind_opcode text) (codes "Hi")) w'
unfolding plain_frame
ws_echo_example =
    ws_echo eager_net 10000 eager_net-Serves fresh_world refl text 0 (fragment (codes "Hi"))
      (ground arith) (ground arith) (omega arith) (omega arith)

-- Functions in the place of the libraries'.
abbrev pub toy_crypto : Crypto
toy_crypto = record { sha1 = take 20; base64 = λ bytes. bytes }

pub key_found :
    find (codes "Sec-WebSocket-Key") (headers_of [] ws_headers) ≡ some (client_key ++ codes "\r")
unfolding find emplace text_eq
key_found = refl

ws_handshake_example :
    (w' : World) × (ws_on_enter eager_net recording_handler toy_crypto
        (headers_of [] ws_headers)
        fresh_world
      ≡ recording_handler.on_connect w')
    × Sent fresh_world
        (response_text (
          accept_lines recording_handler.subprotocol
            (toy_crypto.base64 (toy_crypto.sha1 (client_key ++ ws_guid)))))
        w'
ws_handshake_example =
    ws_handshake eager_net toy_crypto 10000 eager_net-Serves recording_handler
      (headers_of [] ws_headers) client_key (codes "\r") fresh_world refl refl (omega arith)
      key_found

ws_ignores_short_input_example :
    ws_on_receive eager_net recording_handler (129 ∷ []) 1 (in_state 0 [] fresh_world)
    ≡ (ok tt, in_state 0 [] fresh_world)
ws_ignores_short_input_example =
    ws_ignores_short_input eager_net recording_handler (129 ∷ []) 1 (in_state 0 [] fresh_world)
      (omega arith)

empty_first_fragment_throws_example :
    ((receive eager_net recording_handler false (kind_opcode text) (fragment [])
        >> receive eager_net recording_handler true opcode_continuation (fragment (codes "Hello")))
      (in_state 0 [] fresh_world))
    ≡ (err (thrown runtime_error), in_state opcode_continuation (codes "Hello") fresh_world)
empty_first_fragment_throws_example =
    empty_first_fragment_throws eager_net recording_handler text (fragment [])
      (fragment (codes "Hello")) 0 fresh_world (ground arith) (ground arith) refl (omega arith)

ping_ends_message_example :
    ((receive eager_net recording_handler false opcode_binary (fragment (codes "He"))
        >> receive eager_net recording_handler true opcode_connection_ping (fragment (codes "p")))
      (in_state 0 [] fresh_world))
    ≡ (ok tt, in_state opcode_binary [] (record fresh_world { app = codes "Hep" }))
ping_ends_message_example =
    ping_ends_message eager_net recording_handler (fragment (codes "He")) (fragment (codes "p")) 0
      b'H' (codes "e") fresh_world (record fresh_world { app = codes "Hep" }) (ground arith)
      (ground arith) refl (omega arith) refl

ping_reply_is_bare_example :
    (w' : World) × (receive eager_net recording_handler true opcode_connection_ping
        (fragment (codes "p"))
        (in_state 0 [] fresh_world)
      ≡ (ok tt, in_state opcode_connection_ping [] w'))
    × Sent fresh_world (codes "p") w'
ping_reply_is_bare_example =
    ping_reply_is_bare eager_net 10000 eager_net-Serves recording_handler (fragment (codes "p")) 0
      fresh_world refl (ground arith) (omega arith) (omega arith)
