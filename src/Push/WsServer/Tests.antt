-- ===== src/Push/WsServer/Tests.antt =====
-- Two clients of the WebSocket push server, one of which has not asked for everything yet.
use cppsocks.Base.{ℕ, false, List, [], ◌∷◌, ◌≡◌, refl, arith}
use cppsocks.Base.Bytes.{codes}
use cppsocks.Base.Outcome.{ok}
use cppsocks.Frame.Wire.{client_frame, plain_frame}
use cppsocks.Tcp.Connection.{Net}
use cppsocks.Tcp.Connection.Laws.{Sent}
use cppsocks.Tcp.Connection.Serving.{Serves}
use cppsocks.Tcp.Connection.Tests.{eager_net, fresh_world}
use cppsocks.Http.Response.Tests.{eager_net-Serves}
use cppsocks.Http.Request.Tests.{
  client_key, path, query, version, ws_headers, ws-IsRequest, ws_headers-upgrade,
}
use cppsocks.Http.Ws.Receive.{text}
use cppsocks.Http.Ws.Tests.{toy_crypto, key_found, zero_key}
use cppsocks.Http.Server.Echo.{Message}
use cppsocks.Http.Server.Tests.{first_part, first_part-Unfinished}
use cppsocks.Http.Server.Echo.Tests.{upgrade_part}
use cppsocks.Push.{Hub}
use cppsocks.Push.Registry.{has}
use cppsocks.Push.Delivery.{heard}
use cppsocks.Push.Delivery.Servers.{in_turn}
use cppsocks.Push.WsServer.{site_call, new_site}
use cppsocks.Push.WsServer.Client.{
  Upgrade, IsUpgrade, part, asks, says, goes, Event, does, pushed, asking, talks,
}
use cppsocks.Push.WsServer.Members.{phase_after}
use cppsocks.Push.WsServer.Runs.{call_list, Orderly}
use cppsocks.Push.WsServer.Outbox.{outbox}
use cppsocks.Push.WsServer.Delivers.{ws_push_sessions}

abbrev nets : ℕ → Net
nets i = eager_net

nets-Serves : (i : ℕ) → Serves (nets i) 10000
nets-Serves i = eager_net-Serves

abbrev empty_hub : Hub
empty_hub = record { connections = []; worlds = λ i. fresh_world; destroyed = λ i. false }

abbrev upgrade : Upgrade
upgrade = record {
  path = path;
  query = query;
  version = version;
  headers = ws_headers;
  key = client_key;
  key_rest = codes "\r";
}

upgrade-IsUpgrade : IsUpgrade 10000 toy_crypto upgrade
upgrade-IsUpgrade = record {
  well = ws-IsRequest;
  short_path = omega arith;
  fits = omega arith;
  wanted = ws_headers-upgrade;
  found = key_found;
  long = refl;
  answer_fits = omega arith;
}

abbrev hello : Message
hello = record { kind = text; key = zero_key; payload = codes "Hi" }

abbrev events : List Event
events =
    does 3 (part first_part [])
    ∷ pushed (codes "missed")
    ∷ does 3 (asks upgrade upgrade_part (codes "old"))
    ∷ does 5 (part first_part [])
    ∷ pushed (codes "1")
    ∷ does 3 (says hello [])
    ∷ does 5 goes
    ∷ does 3 goes
    ∷ pushed (codes "2")
    ∷ []

events-Orderly : Orderly 10000 toy_crypto (λ i. asking []) events
unfolding plain_frame client_frame
events-Orderly = (
  (first_part-Unfinished, omega arith, omega arith),
  (
    ground arith,
    (
      (upgrade-IsUpgrade, refl),
      (
        (first_part-Unfinished, omega arith, omega arith),
        (
          ground arith,
          (
            ((ground arith, ground arith, (omega arith, omega arith, ground arith)), omega arith),
            (tt, (tt, (ground arith, tt))),
          ),
        ),
      ),
    ),
  ),
)

ws_push_sessions_example :
    let (result, site) =
      in_turn (site_call nets toy_crypto) (call_list events) (new_site empty_hub) in
    (result ≡ ok tt)
    × Sent
        (empty_hub.worlds 3)
        (heard (empty_hub.worlds 3) (outbox toy_crypto 3 (asking []) events))
        (site.hub.worlds 3)
    × (has site.hub.connections 3 ≡ talks (phase_after 3 (asking []) events))
ws_push_sessions_example =
    ws_push_sessions nets 10000 toy_crypto events empty_hub 3 nets-Serves refl (λ i. refl)
      events-Orderly
