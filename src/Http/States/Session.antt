-- ===== src/Http/States/Session.antt =====
-- A connection to the HTTP server, from its first byte to its end: worker, states and handler.
pub mod Get
pub mod Upgrade
use cppsocks.Base.{
  ℕ, zero, suc, ◌+◌, ◌-◌, ◌^◌, ◌≤◌, ◌<◌, true, false, none, some, List, [], ◌∷◌, ◌++◌, append_assoc,
}
use cppsocks.Base.{
  length, drop, replicate, length-append, length-replicate, ◌≡◌, refl, sym, ap, ◌∙◌, arith,
}
use native.Mathlib.Nat.{zero-add}
use cppsocks.Base.Bytes.{codes, text_eq}
use cppsocks.Base.Text.{Text, find_text}
use cppsocks.Base.Outcome.{ok}
use cppsocks.Tcp.Connection.{Holder, connection_alone, Net, World}
use cppsocks.Tcp.Connection.Laws.{Sent}
use cppsocks.Tcp.Connection.Serving.{Serves}
use cppsocks.Tcp.Worker.{Round, Worker, run, loop, max_size}
use cppsocks.Tcp.Worker.Sessions.{
  Event, chunk, event_round, rounds_of, bytes_of, Arrive, Takes, loop-Arrived, loop_chunk,
  loop_closed, run_in_order,
}
use cppsocks.Http.Request.{RequestInfo, HeadersMap, no_request, is_ws_request, max_path_len}
use cppsocks.Http.Request.Parse.{request_text, request_info, headers_of, IsRequest}
use cppsocks.Http.States.{
  Handlers, HandlersOn, HttpSession, HttpSessionOn, get_state, recv_size, new_session, on_receive,
  tcp_server_handler, state_on_disconnect,
}
use cppsocks.Http.States.Step.{terminator, waiting}
use cppsocks.Http.States.Requests.{answering, incomplete_request_waits}
use cppsocks.Http.States.Answers.{get_request_answered, get_request_refused}

-- Four bytes at least have arrived, they do not fill the buffer, and they do not end in an empty
-- line.
abbrev pub Unfinished : List ℕ → List ℕ → Type 0
Unfinished before bytes =
    (head : List ℕ) × (tail : List ℕ) × (before ++ bytes ≡ head ++ tail)
    × (length tail ≡ 4)
    × (text_eq tail terminator ≡ false)
    × (length (before ++ bytes) < recv_size)

-- A buffer of zeros in two parts.
replicate-add : (a b n : ℕ) → n ≡ a + b → replicate {A = ℕ} n 0 ≡ replicate a 0 ++ replicate b 0
replicate-add zero b n e = ap (λ n. replicate n 0) (e ∙ zero-add b)
replicate-add (suc a) b zero e = absurd (omega arith)
replicate-add (suc a) b (suc n) e = ap (◌∷◌ 0) (replicate-add a b n (omega arith))

-- Room for `bytes` in what is free.
pub room_for :
    (received bytes : List ℕ) (k : ℕ)
    → length received + suc k ≡ recv_size
    → length (received ++ bytes) < recv_size
    → (k' : ℕ) × (length (received ++ bytes) + suc k' ≡ recv_size)
      × (replicate {A = ℕ} (suc k) 0 ≡ replicate (length bytes) 0 ++ replicate (suc k') 0)
room_for received bytes k total fits = (
  k - length bytes,
  omega (arith, length-append received bytes),
  replicate-add (length bytes) (suc (k - length bytes)) (suc k)
      (omega (arith, length-append received bytes)),
)

module _ {S : Type 0} ⦃holder : Holder S⦄ (net : Net) (handlers : HandlersOn S) (w : S)
    (info : RequestInfo) where
  -- What has arrived stands at the front of the buffer, and zeros behind it.
  abbrev pub Holds : List ℕ → HttpSessionOn S → Type 0
  Holds received s =
      (k : ℕ) × (length received + suc k ≡ recv_size)
      × (s ≡ waiting (received ++ replicate (suc k) 0) (length received) w info)

  pub keeps_waiting : Takes (tcp_server_handler net handlers) Holds Unfinished
  unfolding tcp_server_handler
  keeps_waiting received bytes after s pos fits (head, tail, parts, four, more, small)
        (k, total, e) =
      let (k', total', split) = room_for received bytes k total small in
      (
        waiting ((received ++ bytes) ++ replicate (suc k') 0) (length (received ++ bytes)) w info,
        ap (on_receive net handlers (bytes ++ after) (length bytes))
              (e ∙ ap (λ m. waiting (received ++ m) (length received) w info) split)
            ∙ incomplete_request_waits net handlers received (replicate (length bytes) 0)
                (replicate (suc k') 0) bytes after head tail w info (same_length bytes) parts four
                more small,
        (k', total', refl),
      )
    where
      same_length : (bs : List ℕ) → length bs ≡ length {A = ℕ} (replicate (length bs) 0)
      same_length bs = sym (length-replicate (length bs) 0)
