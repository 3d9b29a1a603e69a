-- ===== src/Push/Pusher.antt =====
-- `pusherRunner` of examples/tcp_push/main.cpp and examples/ws_push/pusher.cpp: what it sends
-- until the program is to end.
use cppsocks.Base.{
  ℕ, zero, suc, ◌+◌, ◌^◌, ◌≤◌, ◌<◌, Bool, true, false, List, [], ◌∷◌, ◌++◌, All, length,
  length-append, replicate, if◌then◌else◌,
}
use cppsocks.Base.{◌≡◌, refl, sym, ap, ◌∙◌, arith}
use mathlib.Core.Path.{subst}
use native.Mathlib.Nat.{mod-eq_of_lt}
use cppsocks.Base.Decimal.{decimal, length-decimal}
use cppsocks.Base.Outcome.{Result, ok}
use cppsocks.Base.Effect.{continue}
use cppsocks.Tcp.Connection.{Net}
use cppsocks.Tcp.Connection.Laws.{Sent}
use cppsocks.Tcp.Connection.Serving.{Serves}
use cppsocks.Push.{Hub, conn_push, message, uncaught, pusher_loop, pusher_runner}
use cppsocks.Push.Registry.{has, Sorted}
use cppsocks.Push.Delivery.{heard}
use cppsocks.Push.Delivery.Histories.{Act, pushes, act, acts, inbox, Suits, Heard, history-Heard}
use cppsocks.Push.Delivery.Servers.{tcp_service, tcp-Works}

-- The messages of `n` rounds from the number `cnt` on, each with its NUL, and what they are
-- together.
abbrev pub numbered : ℕ → ℕ → List (Act (List ℕ))
numbered zero cnt = []
numbered (suc n) cnt = pushes (message cnt ++ (0 ∷ [])) ∷ numbered n (cnt + 1)

abbrev pub numbers_text : ℕ → ℕ → List ℕ
numbers_text zero cnt = []
numbers_text (suc n) cnt = (message cnt ++ (0 ∷ [])) ++ numbers_text n (cnt + 1)

length-message : (cnt : ℕ) → length (message cnt ++ (0 ∷ [])) ≡ length (message cnt) + 1
length-message cnt = length-append (message cnt) (0 ∷ [])

length-message_le : (cnt : ℕ) → cnt < 2 ^ 64 → length (message cnt ++ (0 ∷ [])) ≤ 22
unfolding message
length-message_le cnt h = omega (
  arith,
  length-append (message cnt) (0 ∷ []),
  length-append (decimal cnt) (10 ∷ []),
  length-decimal cnt h,
)

-- `n` rounds, and one that finds that the program is to end.
abbrev pub until_quit : ℕ → List Bool → List Bool
until_quit n later = replicate n false ++ (true ∷ later)

module _ (nets : ℕ → Net) (later : List Bool) where
  pusher_loop-acts :
      (n cnt : ℕ) (h : Hub)
      → cnt + n < 2 ^ 64
      → pusher_loop (conn_push nets) (until_quit n later) cnt h
        ≡ acts (tcp_service nets) (numbered n cnt) h
  unfolding pusher_loop conn_push
  pusher_loop-acts zero cnt h fits = refl
  pusher_loop-acts (suc n) cnt h fits =
      rw (mod-eq_of_lt {n = cnt + 1} {m = 2 ^ 64} (omega arith), sym (length-message cnt))
        (ap (λ k. continue (act (tcp_service nets) (pushes (message cnt ++ (0 ∷ []))) h) (λ _. k))
          (λ i g. pusher_loop-acts n (cnt + 1) g (omega arith) i))

inbox-numbered :
    (nets : ℕ → Net) (j : ℕ) (registered : Bool) (n cnt : ℕ)
    → inbox (tcp_service nets) j registered (numbered n cnt)
      ≡ (if registered then numbers_text n cnt else [])
inbox-numbered nets j true zero cnt = refl
inbox-numbered nets j false zero cnt = refl
inbox-numbered nets j true (suc n) cnt =
    ap (λ m. (message cnt ++ (0 ∷ [])) ++ m) (inbox-numbered nets j true n (cnt + 1))
inbox-numbered nets j false (suc n) cnt = inbox-numbered nets j false n (cnt + 1)

numbered-fit :
    (nets : ℕ → Net) (room n cnt : ℕ)
    → 22 ≤ room
    → cnt + n < 2 ^ 64
    → All
        (Suits (tcp_service nets) (λ bytes. length bytes ≤ room) (λ bytes. length bytes ≤ room))
        (numbered n cnt)
numbered-fit nets room zero cnt wide fits = tt
numbered-fit nets room (suc n) cnt wide fits = (
  omega (arith, length-message_le cnt (omega arith)),
  numbered-fit nets room n (cnt + 1) wide (omega arith),
)

pub uncaught_returned : (r : Result (Unit {0}) × Hub) → r.0 ≡ ok tt → uncaught r ≡ r
unfolding uncaught
uncaught_returned (result, g) e = ap (λ x. uncaught (x, g)) e ∙ ap (λ x. (x, g)) (sym e)

runner_acts :
    (nets : ℕ → Net) (later : List Bool) (n : ℕ) (h : Hub)
    → n < 2 ^ 64
    → (acts (tcp_service nets) (numbered n 0) h).0 ≡ ok tt
    → pusher_runner nets (until_quit n later) h ≡ acts (tcp_service nets) (numbered n 0) h
unfolding pusher_runner
runner_acts nets later n h small returned =
    ap uncaught (pusher_loop-acts nets later n 0 h (omega arith)) ∙ uncaught_returned _ returned

-- The pusher of tcp_push, which runs `n` rounds until the program is to end, with nobody coming or
-- going meanwhile: it ends, and out on each registered and open connection go the numbers from 0
-- up to but not including `n`, each with an end of line and a NUL behind it; nothing goes out on
-- the other connections. The sockets make progress and are followed for more than 22 rounds of
-- one `send`, no connection is gone, the manager's elements are in order, and the counter does
-- not overflow.
pub pusher_counts :
    (nets : ℕ → Net) (room n : ℕ) (later : List Bool) (h : Hub) (j : ℕ)
    → ((i : ℕ) → Serves (nets i) room)
    → 22 ≤ room
    → n < 2 ^ 64
    → Sorted h.connections
    → ((i : ℕ) → h.destroyed i ≡ false)
    → let (result, h') = pusher_runner nets (until_quit n later) h in
      (result ≡ ok tt)
      × Sent
          (h.worlds j)
          (heard (h.worlds j) (if has h.connections j then numbers_text n 0 else []))
          (h'.worlds j)
pusher_counts nets room n later h j serves wide small sorted alive =
    let delivered =
      history-Heard (tcp_service nets) (λ bytes. length bytes ≤ room) (λ bytes. length bytes ≤ room)
        (tcp-Works nets room serves) j (numbered n 0) h sorted alive
        (numbered-fit nets room n 0 wide (omega arith)) in
    subst
      (λ r.
        (r.0 ≡ ok tt)
        × Sent (h.worlds j)
            (heard (h.worlds j) (if has h.connections j then numbers_text n 0 else []))
            (r.1.worlds j))
      (sym (runner_acts nets later n h small delivered.0))
      (subst
        (λ bytes. Heard (tcp_service nets) h j bytes (acts (tcp_service nets) (numbered n 0) h))
        (inbox-numbered nets j (has h.connections j) n 0) delivered)
