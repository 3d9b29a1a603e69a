-- ===== src/Push/WsServer/Delivers.antt =====
-- Whole histories of the WebSocket push server: clients that ask, talk and go, and texts that are
-- pushed, in any order.
use cppsocks.Base.{ℕ, ◌-◌, false, List, []}
use cppsocks.Base.{◌≡◌, refl, sym, ap, ◌∙◌}
use mathlib.Core.Path.{subst}
use cppsocks.Base.Outcome.{ok}
use cppsocks.Tcp.Connection.{Net}
use cppsocks.Tcp.Connection.Laws.{Sent}
use cppsocks.Tcp.Connection.Serving.{Serves}
use cppsocks.Http.Ws.{Crypto}
use cppsocks.Http.States.{recv_size}
use cppsocks.Push.{Hub}
use cppsocks.Push.Registry.{has, Sorted}
use cppsocks.Push.Delivery.{heard}
use cppsocks.Push.Delivery.Histories.{acts, inbox, history-Heard}
use cppsocks.Push.Delivery.Servers.{in_turn, IsMessage}
use cppsocks.Push.WsServer.{site_call, new_site}
use cppsocks.Push.WsServer.Client.{Event, Phase, asking, talks, IsAsked, site_service}
use cppsocks.Push.WsServer.Calls.{site-Works}
use cppsocks.Push.WsServer.Members.{
  registered_after, acts-registered, phase_after, all_acts-registered,
}
use cppsocks.Push.WsServer.Runs.{call_list, all_acts, Orderly, runs}
use cppsocks.Push.WsServer.Outbox.{outbox, inbox-outbox, all_acts-Suits}

-- The WebSocket push server as a whole, in any history in which each call of a session or of the
-- pusher ends before the next one begins, though handlers send without the manager's mutex: clients
-- send a request for an upgrade in chunks, of which the first has four bytes at least, then messages
-- of one masked frame each, of 4096 bytes at most, that come in one read each, and go, while the
-- pusher sends texts. Every call returns. What goes out on a connection that is open
-- is the answer to its handshake, one binary frame for each message that it sends, and one text
-- frame for each text that is pushed while it exchanges messages, in that order; nothing goes out
-- on a closed one. Registered are at the end those that exchange messages and have not gone. At
-- first nobody is registered, and no connection is gone; the sockets make progress and are
-- followed for more rounds than an answer has bytes; requests are well-formed and fit in the
-- buffers, and messages have no more bytes than 16 bits can count, texts no NUL.
pub ws_push_sessions :
    (nets : ℕ → Net) (room : ℕ) (crypto : Crypto) (events : List Event) (h : Hub) (j : ℕ)
    → ((i : ℕ) → Serves (nets i) room)
    → h.connections ≡ []
    → ((i : ℕ) → h.destroyed i ≡ false)
    → Orderly room crypto (λ i. asking []) events
    → let (result, site) = in_turn (site_call nets crypto) (call_list events) (new_site h) in
      (result ≡ ok tt)
      × Sent
          (h.worlds j)
          (heard (h.worlds j) (outbox crypto j (asking []) events))
          (site.hub.worlds j)
      × (has site.hub.connections j ≡ talks (phase_after j (asking []) events))
ws_push_sessions nets room crypto events h j serves empty alive orderly =
    let start : ℕ → Phase = λ i. asking [] in
    let service = site_service nets crypto in
    let (same_result, same_hub) =
      runs nets room crypto serves events start (new_site h) (λ i. (recv_size - 1, refl, refl))
        alive orderly in
    let nobody : has h.connections j ≡ false = ap (λ c. has c j) empty in
    let sorted : Sorted h.connections = subst Sorted (sym empty) tt in
    let (returned, sent) =
      history-Heard service (IsMessage room) (IsAsked room crypto)
        (site-Works nets room crypto serves) j (all_acts start events) h sorted alive
        (all_acts-Suits nets crypto room events start orderly) in
    let to_send : inbox service j (has h.connections j) (all_acts start events)
        ≡ outbox crypto j (asking []) events =
      ap (λ b. inbox service j b (all_acts start events)) nobody
      ∙ inbox-outbox nets crypto room j events start orderly in
    let registered =
      acts-registered service j (all_acts start events) h sorted returned
      ∙ ap (λ b. registered_after j b (all_acts start events)) nobody
      ∙ all_acts-registered room crypto j events start orderly in
    (
      same_result ∙ returned,
      subst
          (λ g.
            Sent (h.worlds j) (heard (h.worlds j) (outbox crypto j (asking []) events))
              (g.worlds j))
          (sym same_hub)
          (subst
            (λ bytes.
              Sent (h.worlds j) (heard (h.worlds j) bytes)
                ((acts service (all_acts start events) h).1.worlds j))
            to_send sent),
      ap (λ g. has g.connections j) same_hub ∙ registered,
    )
