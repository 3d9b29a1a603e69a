-- ===== src/Push/Dangling.antt =====
-- Connections that a push cannot reach: one whose socket fails, and one that is no more.
use cppsocks.Base.{
  ℕ, ◌+◌, ◌≤◌, ◌<◌, true, false, ◌||◌, List, [], ◌∷◌, append-nil, length, ◌==◌, Bool-cases, inl,
  inr,
}
use cppsocks.Base.{◌≡◌, ◌≢◌, refl, sym, ap, ◌∙◌, arith}
use mathlib.Core.Path.{subst}
use cppsocks.Base.Outcome.{Result, ok, err, Error, thrown, fault, runtime_error}
use cppsocks.Base.Effect.{M, continue, return, ◌>>◌}
use cppsocks.Tcp.Connection.{put_world, Net, World, failed, send}
use cppsocks.Tcp.Connection.Faults.{send_fails}
use cppsocks.Tcp.Connection.Serving.{Serves}
use cppsocks.Push.{Hub, on_connection, for_each, push_all, conn_push}
use cppsocks.Push.Registry.{has}
use cppsocks.Push.Delivery.{on_connection-ok, DeliversTo, send-DeliversTo}

-- The calls on all connections but `i` return, and the one on `i`, as it is, ends in an error.
pub record Blocks (m : ℕ → M World (Unit {0})) (i : ℕ) (h : Hub) (error : Error) : Type 0 where
  pub others_alive : (k : ℕ) → k ≢ i → h.destroyed k ≡ false
  pub others_return : (k : ℕ) (w : World) → k ≢ i → (m k w).0 ≡ ok tt
  pub fails :
      (g : Hub)
      → g.worlds i ≡ h.worlds i
      → g.destroyed ≡ h.destroyed
      → (on_connection i (m i) g).0 ≡ err error

-- A loop that comes to `i` ends in that error.
pub for_each-Blocks :
    (m : ℕ → M World (Unit {0})) (i : ℕ) (error : Error) (is : List ℕ) (h : Hub)
    → Blocks m i h error
    → has is i ≡ true
    → (for_each m is h).0 ≡ err error
unfolding for_each put_world
for_each-Blocks m i error [] h blocks there = cc there
for_each-Blocks m i error (k ∷ is) h blocks there = elim (Bool-cases (i == k)) [
  | inl same ↦
      let e : k ≡ i = ground arith in
      stopped error _ (for_each m is)
        (subst (λ x. (on_connection x (m x) h).0 ≡ err error) (sym e) (blocks.fails h refl refl))
  | inr other ↦
      let apart : k ≢ i = λ e. ground arith in
      let elsewhere : (k == i) ≡ false = ground arith in
      let g : Hub = record h { worlds = put_world k (m k (h.worlds k)).1 h.worlds } in
      subst (λ r. (continue r (λ _. for_each m is)).0 ≡ err error)
        (sym (
          on_connection-ok k (m k) h (blocks.others_alive k apart)
            (blocks.others_return k (h.worlds k) apart)))
        (for_each-Blocks m i error is g
          (record {
            others_alive = blocks.others_alive;
            others_return = blocks.others_return;
            fails = λ g' same_world same_destroyed.
                blocks.fails g' (same_world ∙ rw elsewhere refl) same_destroyed;
          })
          (ground (arith, there, other)))
]
  where
    stopped :
        (error : Error) (r : Result (Unit {0}) × Hub) (k : M Hub (Unit {0}))
        → r.0 ≡ err error
        → (continue r (λ _. k)).0 ≡ err error
    stopped error (ok t, g) k e = cc e
    stopped error (err x, g) k e = e

-- The end of a handler's life, and of its connection's.
abbrev pub destroy : ℕ → Hub → Hub
destroy i h = record h { destroyed = λ k. (k == i) || h.destroyed k }

module _ (nets : ℕ → Net) (room i : ℕ) (serves : (k : ℕ) → k ≢ i → Serves (nets k) room) (h : Hub)
    (bytes : List ℕ) (fits : length bytes ≤ room) (there : has h.connections i ≡ true) where
  send_returns :
      (k : ℕ) (w : World) → k ≢ i → ((send (nets k) bytes (length bytes) >> return tt) w).0 ≡ ok tt
  send_returns k w apart =
      (subst (λ m. DeliversTo (send (nets k) m (length bytes) >> return tt) bytes)
        (append-nil bytes) (send-DeliversTo (nets k) room bytes [] (serves k apart) fits) w).0

  push_fails :
      (error : Error)
      → ((k : ℕ) → k ≢ i → h.destroyed k ≡ false)
      → ((g : Hub)
          → g.worlds i ≡ h.worlds i
          → g.destroyed ≡ h.destroyed
          → (on_connection i (send (nets i) bytes (length bytes) >> return tt) g).0 ≡ err error)
      → (conn_push nets bytes (length bytes) h).0 ≡ err error
  unfolding conn_push push_all
  push_fails error alive fails =
      for_each-Blocks (λ k. send (nets k) bytes (length bytes) >> return tt) i error h.connections h
        (record { others_alive = alive; others_return = send_returns; fails = fails }) there

  -- One connection whose socket fails.
  pub push_throws :
      ((k : ℕ) → h.destroyed k ≡ false)
      → 0 < length bytes
      → 0 < (nets i).rounds
      → (h.worlds i).closed ≡ false
      → (nets i).answer (h.worlds i).writes (length bytes) ≡ failed
      → (conn_push nets bytes (length bytes) h).0 ≡ err (thrown runtime_error)
  unfolding on_connection
  push_throws alive pos rounds still_open answered =
      push_fails (thrown runtime_error) (λ k apart. alive k)
        (λ g same_world same_destroyed.
          throws g (ap (λ d. d i) same_destroyed ∙ alive i)
            (ap (λ w. w.closed) same_world ∙ still_open)
            (ap (λ w. (nets i).answer w.writes (length bytes)) same_world ∙ answered))
    where
      throws :
          (g : Hub)
          → g.destroyed i ≡ false
          → (g.worlds i).closed ≡ false
          → (nets i).answer (g.worlds i).writes (length bytes) ≡ failed
          → (on_connection i (send (nets i) bytes (length bytes) >> return tt) g).0
            ≡ err (thrown runtime_error)
      throws g live still_open answered =
          let e =
            subst
              (λ m. send (nets i) m (length bytes) (g.worlds i) ≡ (
                err (thrown runtime_error),
                record (g.worlds i) { writes = (g.worlds i).writes + 1 },
              ))
              (append-nil bytes)
              (send_fails (nets i) bytes [] (g.worlds i) pos rounds still_open answered) in
          rw (live, e) refl

  -- One connection that is no more.
  pub push_faults :
      ((k : ℕ) → k ≢ i → h.destroyed k ≡ false)
      → h.destroyed i ≡ true
      → (conn_push nets bytes (length bytes) h).0 ≡ err fault
  unfolding on_connection
  push_faults alive gone =
      push_fails fault alive
        (λ g same_world same_destroyed. faults g (ap (λ d. d i) same_destroyed ∙ gone))
    where
      faults :
          (g : Hub)
          → g.destroyed i ≡ true
          → (on_connection i (send (nets i) bytes (length bytes) >> return tt) g).0 ≡ err fault
      faults g gone = rw gone refl
