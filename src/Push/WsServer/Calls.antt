-- ===== src/Push/WsServer/Calls.antt =====
-- The handler of a client: what its answers do to the connections.
use cppsocks.Base.{ℕ, false, true, List, [], ◌∷◌, ◌++◌, length}
use cppsocks.Base.{◌≡◌, arith}
use cppsocks.Base.Bytes.{c_str-append}
use cppsocks.Base.Outcome.{ok}
use cppsocks.Frame.{make, make_text, opcode_text, opcode_binary}
use cppsocks.Frame.Build.{make-plain_frame}
use cppsocks.Frame.Fields.{library_frames}
use cppsocks.Tcp.Connection.{Net, put_world}
use cppsocks.Tcp.Connection.Serving.{Serves}
use cppsocks.Http.Response.{put}
use cppsocks.Http.Ws.{Crypto, on_text_default, send_data, send_text}
use cppsocks.Http.Ws.Receive.{Kind, text, binary, hand_over}
use cppsocks.Http.Ws.Sending.{make_whole}
use cppsocks.Http.Server.Echo.{accepting}
use cppsocks.Push.{Hub, on_connection, ws_push_handler, ws_push_on_data}
use cppsocks.Push.Delivery.{DeliversTo, on_connection-ok}
use cppsocks.Push.Delivery.Histories.{Works}
use cppsocks.Push.Delivery.Servers.{IsMessage, whole_send, frame-DeliversTo}
use cppsocks.Push.WsServer.Client.{Asked, handshake, message, IsAsked, answer_to, site_service}

module _ (nets : ℕ → Net) (room : ℕ) (crypto : Crypto)
    (serves : (i : ℕ) → Serves (nets i) room) where
  answer-DeliversTo :
      (q : Asked) (i : ℕ)
      → IsAsked room crypto q
      → DeliversTo (answer_to nets crypto q i) ((site_service nets crypto).answer_wire q)
  unfolding put send_data
  answer-DeliversTo (handshake key) i fits =
      whole_send nets room serves (accepting crypto key) i fits
  answer-DeliversTo (message text payload) i (small, fits, plain) =
      frame-DeliversTo nets room serves i
        (make (payload ++ (0 ∷ [])) (length payload) true opcode_binary) opcode_binary payload
        (make-plain_frame payload (0 ∷ []) true opcode_binary (omega arith) small) small fits
  answer-DeliversTo (message binary payload) i (small, fits, _) =
      frame-DeliversTo nets room serves i (make payload (length payload) true opcode_binary)
        opcode_binary payload (make_whole opcode_binary payload (omega arith) small) small fits

  pub site-Works : Works (site_service nets crypto) (IsMessage room) (IsAsked room crypto)
  unfolding send_text
  site-Works = record {
    push_works = λ words i (plain, small, fits, _).
        frame-DeliversTo nets room serves i (make_text (words ++ (0 ∷ []))) opcode_text words
          (library_frames 0 words [] (omega arith) small plain).3 small fits;
    answer_works = answer-DeliversTo;
  }

  -- An answer to connection `i`.
  abbrev pub answered_hub : ℕ → Asked → Hub → Hub
  answered_hub i q h = record h {
    worlds = put_world i (answer_to nets crypto q i (h.worlds i)).1 h.worlds;
  }

  pub answered :
      (i : ℕ) (q : Asked) (h : Hub)
      → IsAsked room crypto q
      → h.destroyed i ≡ false
      → on_connection i (answer_to nets crypto q i) h ≡ (ok tt, answered_hub i q h)
  answered i q h suits alive =
      on_connection-ok i (answer_to nets crypto q i) h alive
        (answer-DeliversTo q i suits (h.worlds i)).0

  pub handed_over :
      (i : ℕ) (kind : Kind) (payload : List ℕ) (h : Hub)
      → IsAsked room crypto (message kind payload)
      → h.destroyed i ≡ false
      → hand_over (ws_push_handler nets i) kind payload h
        ≡ (ok tt, answered_hub i (message kind payload) h)
  unfolding ws_push_handler ws_push_on_data on_text_default
  handed_over i text payload h suits alive =
      rw (c_str-append payload [] suits.2) (answered i (message text payload) h suits alive)
  handed_over i binary payload h suits alive = answered i (message binary payload) h suits alive
