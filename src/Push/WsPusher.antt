-- ===== src/Push/WsPusher.antt =====
-- `pusherRunner` of examples/ws_push/pusher.cpp: the numbers as text frames.
use cppsocks.Base.{
  ℕ, zero, suc, ◌+◌, ◌^◌, ◌≤◌, ◌<◌, ◌≢◌, Bool, true, false, List, [], ◌∷◌, ◌++◌, All, All-append,
  length, length-append, if◌then◌else◌,
}
use cppsocks.Base.{◌≡◌, refl, sym, ap, ◌∙◌, arith}
use mathlib.Core.Path.{subst}
use native.Mathlib.Nat.{mod-eq_of_lt}
use cppsocks.Base.Bytes.{IsText}
use cppsocks.Base.Decimal.{decimal, length-decimal, decimal-nonzero}
use cppsocks.Base.Outcome.{ok}
use cppsocks.Base.Effect.{continue}
use cppsocks.Frame.{opcode_text, opcode_binary}
use cppsocks.Frame.Wire.{plain_frame, length-plain_frame}
use cppsocks.Tcp.Connection.{Net}
use cppsocks.Tcp.Connection.Laws.{Sent}
use cppsocks.Tcp.Connection.Serving.{Serves}
use cppsocks.Push.{Hub, elem_push, message, uncaught, pusher_loop, ws_pusher_runner}
use cppsocks.Push.Registry.{has, Sorted}
use cppsocks.Push.Delivery.{heard}
use cppsocks.Push.Delivery.Histories.{Act, pushes, act, acts, inbox, Suits, Heard, history-Heard}
use cppsocks.Push.Delivery.Servers.{ws_service, IsMessage, ws-Works}
use cppsocks.Push.Pusher.{until_quit, uncaught_returned}

-- The messages of `n` rounds from the number `cnt` on, and their frames.
abbrev pub counted : ℕ → ℕ → List (Act (List ℕ))
counted zero cnt = []
counted (suc n) cnt = pushes (message cnt) ∷ counted n (cnt + 1)

abbrev pub numbers_frames : ℕ → ℕ → List ℕ
numbers_frames zero cnt = []
numbers_frames (suc n) cnt =
    plain_frame true opcode_text (message cnt) ++ numbers_frames n (cnt + 1)

message-IsText : (cnt : ℕ) → IsText (message cnt)
unfolding message
message-IsText cnt =
    All-append (λ c. c ≢ 0) (decimal cnt) (10 ∷ []) (decimal-nonzero cnt)
      (λ h. absurd (omega arith), tt)

length-message : (cnt : ℕ) → cnt < 2 ^ 64 → length (message cnt) ≤ 21
unfolding message
length-message cnt h = omega (arith, length-append (decimal cnt) (10 ∷ []), length-decimal cnt h)

message-IsMessage : (room cnt : ℕ) → 23 ≤ room → cnt < 2 ^ 64 → IsMessage room (message cnt)
message-IsMessage room cnt wide small =
    let bound = length-message cnt small in
    (
      message-IsText cnt,
      omega (arith, bound),
      omega
          (arith, bound, length-plain_frame true opcode_text (message cnt) (omega (arith, bound))),
      omega (
        arith,
        bound,
        length-plain_frame true opcode_binary (message cnt) (omega (arith, bound)),
      ),
    )

ws_pusher_loop-acts :
    (nets : ℕ → Net) (later : List Bool) (n cnt : ℕ) (h : Hub)
    → cnt + n < 2 ^ 64
    → pusher_loop (λ buf len. elem_push nets buf) (until_quit n later) cnt h
      ≡ acts (ws_service nets) (counted n cnt) h
unfolding pusher_loop elem_push
ws_pusher_loop-acts nets later zero cnt h fits = refl
ws_pusher_loop-acts nets later (suc n) cnt h fits =
    rw (mod-eq_of_lt {n = cnt + 1} {m = 2 ^ 64} (omega arith)) (
      ap (λ k. continue (act (ws_service nets) (pushes (message cnt)) h) (λ _. k))
        (λ i g. ws_pusher_loop-acts nets later n (cnt + 1) g (omega arith) i))

inbox-counted :
    (nets : ℕ → Net) (j : ℕ) (registered : Bool) (n cnt : ℕ)
    → inbox (ws_service nets) j registered (counted n cnt)
      ≡ (if registered then numbers_frames n cnt else [])
inbox-counted nets j true zero cnt = refl
inbox-counted nets j false zero cnt = refl
inbox-counted nets j true (suc n) cnt =
    ap (λ m. plain_frame true opcode_text (message cnt) ++ m)
      (inbox-counted nets j true n (cnt + 1))
inbox-counted nets j false (suc n) cnt = inbox-counted nets j false n (cnt + 1)

counted-fit :
    (nets : ℕ → Net) (room n cnt : ℕ)
    → 23 ≤ room
    → cnt + n < 2 ^ 64
    → All (Suits (ws_service nets) (IsMessage room) (IsMessage room)) (counted n cnt)
counted-fit nets room zero cnt wide fits = tt
counted-fit nets room (suc n) cnt wide fits = (
  message-IsMessage room cnt wide (omega arith),
  counted-fit nets room n (cnt + 1) wide (omega arith),
)

-- The pusher of ws_push, which runs `n` rounds until the program is to end, with nobody coming or
-- going meanwhile: it ends, and out on each registered and open connection go the numbers from 0
-- up to but not including `n`, each with an end of line, as one text frame each; nothing goes out on
-- the other connections. The sockets make progress and are followed for more than 23 rounds of
-- one `send`, no connection is gone, the manager's elements are in order, and the counter does
-- not overflow.
pub ws_pusher_counts :
    (nets : ℕ → Net) (room n : ℕ) (later : List Bool) (h : Hub) (j : ℕ)
    → ((i : ℕ) → Serves (nets i) room)
    → 23 ≤ room
    → n < 2 ^ 64
    → Sorted h.connections
    → ((i : ℕ) → h.destroyed i ≡ false)
    → let (result, h') = ws_pusher_runner nets (until_quit n later) h in
      (result ≡ ok tt)
      × Sent
          (h.worlds j)
          (heard (h.worlds j) (if has h.connections j then numbers_frames n 0 else []))
          (h'.worlds j)
unfolding ws_pusher_runner
ws_pusher_counts nets room n later h j serves wide small sorted alive =
    let delivered =
      history-Heard (ws_service nets) (IsMessage room) (IsMessage room) (ws-Works nets room serves)
        j (counted n 0) h sorted alive (counted-fit nets room n 0 wide (omega arith)) in
    let ran =
      ap uncaught (ws_pusher_loop-acts nets later n 0 h (omega arith))
      ∙ uncaught_returned _ delivered.0 in
    subst
      (λ r.
        (r.0 ≡ ok tt)
        × Sent (h.worlds j)
            (heard (h.worlds j) (if has h.connections j then numbers_frames n 0 else []))
            (r.1.worlds j))
      (sym ran)
      (subst (λ bytes. Heard (ws_service nets) h j bytes (acts (ws_service nets) (counted n 0) h))
        (inbox-counted nets j (has h.connections j) n 0) delivered)
