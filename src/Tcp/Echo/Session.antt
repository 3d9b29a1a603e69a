-- ===== src/Tcp/Echo/Session.antt =====
-- A connection to the echo server, from its first byte to its end.
use cppsocks.Base.{ℕ, ◌≤◌, true, false, List, [], ◌∷◌, ◌≡◌, refl, ap, ◌∙◌, arith}
use cppsocks.Base.Outcome.{ok}
use cppsocks.Base.Effect.{continue, return}
use cppsocks.Tcp.Connection.{Net, World, is_closed}
use cppsocks.Tcp.Connection.Laws.{Sent, Sent-nil, Sent-trans}
use cppsocks.Tcp.Connection.Serving.{Serves, Serves-Sent}
use cppsocks.Tcp.Worker.{Round, run, max_size}
use cppsocks.Tcp.Worker.Sessions.{
  Event, rounds_of, end_of_file, bytes_of, Arrive, Takes, loop-Arrived, loop-end_of_file,
  run_in_order,
}
use cppsocks.Tcp.Echo.{echo_handler}

abbrev pub Anything : List ℕ → List ℕ → Type 0
Anything before bytes = Unit {0}

module _ (net : Net) (room : ℕ) (serves : Serves net room) (wide : max_size ≤ room) (w : World)
    (still_open : w.closed ≡ false) where
  echoes : Takes (echo_handler net) (Sent w) Anything
  unfolding echo_handler
  echoes before bytes after s pos fits t sent =
      let (s', e, more) =
        Serves-Sent serves bytes after s (omega arith) (sent.same_closed ∙ still_open) in
      (s', ap (λ r. continue r (λ n. return tt)) e, Sent-trans sent more)

-- The echo server sends back every byte, in order, however the client's bytes are cut into chunks
-- and whatever idle rounds and repeated reads lie between them; when the client has closed its
-- side, the worker ends and closes the socket. The connection is open, its socket makes progress
-- and is followed for more than 4096 rounds of one `send`, and each chunk has 1 to 4096 bytes.
pub tcp_echo :
    (net : Net) (room : ℕ) (es : List Event) (later : List Round) (buf : List ℕ) (w : World)
    → Serves net room
    → max_size ≤ room
    → Arrive Anything [] es
    → w.closed ≡ false
    → (w' : World) × (run
          (echo_handler net)
          (rounds_of es (end_of_file ∷ later))
          buf
          (record { session = w; socket_closed = false; is_active = true })
        ≡ (ok tt, record { session = w'; socket_closed = true; is_active = false }))
      × Sent w (bytes_of es) w'
unfolding echo_handler is_closed
tcp_echo net room es later buf w serves wide arrive still_open =
    let (buf', w', looped, sent) =
      loop-Arrived (echo_handler net) (Sent w) Anything (echoes net room serves wide w still_open)
        (λ before s p. p.same_closed ∙ still_open) es (end_of_file ∷ later) [] buf w arrive
        (Sent-nil w) in
    (
      w',
      run_in_order (echo_handler net) _ buf _ w w' w' refl
          (looped
            ∙ loop-end_of_file (echo_handler net) later buf' w' (sent.same_closed ∙ still_open))
          refl,
      sent,
    )
