-- ===== src/Http/Response/Tests.antt =====
-- Error responses on a socket that takes what it is offered.
use cppsocks.Base.{none, ◌++◌, ◌≡◌, refl, arith}
use cppsocks.Base.Bytes.{codes}
use cppsocks.Base.Text.{find_text}
use cppsocks.Base.Outcome.{ok}
use cppsocks.Tcp.Connection.{World}
use cppsocks.Tcp.Connection.Laws.{Sent}
use cppsocks.Tcp.Connection.Tests.{eager_net, fresh_world, eager_net-Delivers}
use cppsocks.Http.Response.{newline, status_text, http_403, http_404, http_500}
use cppsocks.Tcp.Connection.Serving.{Serves}
use cppsocks.Http.Response.Emits.{error-Sent}

pub eager_net-Serves : Serves eager_net 10000
eager_net-Serves = record {
  delivers = eager_net-Delivers;
  enough = omega arith;
  fits = omega arith;
}

error-Sent_example :
    ((w' : World) × (http_403 eager_net fresh_world ≡ (ok tt, w'))
      × Sent fresh_world (status_text (codes "403 Forbidden")) w')
    × ((w' : World) × (http_404 eager_net fresh_world ≡ (ok tt, w'))
        × Sent fresh_world (status_text (codes "404 Not Found")) w')
    × ((w' : World) × (http_500 eager_net fresh_world ≡ (ok tt, w'))
        × Sent fresh_world (status_text (codes "500 Internal Server Error")) w')
    × (find_text (newline ++ newline) (status_text (codes "403 Forbidden")) ≡ none)
    × (find_text (newline ++ newline) (status_text (codes "404 Not Found")) ≡ none)
    × (find_text (newline ++ newline) (status_text (codes "500 Internal Server Error")) ≡ none)
error-Sent_example = error-Sent eager_net 10000 eager_net-Serves fresh_world (omega arith) refl
