-- ===== src/Push/Delivery.antt =====
-- What reaches a connection: the messages that are pushed while it is registered, and the answers
-- to what it sends itself, in the order in which the manager's mutex lets them through.
pub mod Histories
pub mod Servers
use cppsocks.Base.{
  ℕ, ◌≤◌, ◌<◌, All, Bool, true, false, ◌&&◌, ◌||◌, List, [], ◌∷◌, ◌++◌, length, ◌==◌, if◌then◌else◌,
  Bool-cases, inl, inr,
}
use cppsocks.Base.{◌≡◌, refl, sym, ap, ap₂, ◌∙◌, arith}
use mathlib.Core.Path.{subst}
use cppsocks.Base.Outcome.{Result, ok}
use cppsocks.Base.Effect.{M, continue, return, ◌>>◌}
use cppsocks.Tcp.Connection.{put_world, Net, World, send}
use cppsocks.Tcp.Connection.Laws.{Sent, Sent-nil, Sent-trans}
use cppsocks.Tcp.Connection.Faults.{send_closed}
use cppsocks.Tcp.Connection.Serving.{Serves, Serves-Sent}
use cppsocks.Push.{Hub, on_connection, for_each, push_all}
use cppsocks.Push.Registry.{has, Sorted, has-below}

-- Nothing reaches a closed connection.
abbrev pub heard : World → List ℕ → List ℕ
heard w bytes = if w.closed then [] else bytes

-- A call that returns, with `bytes` on the wire of an open connection.
abbrev pub DeliversTo : M World (Unit {0}) → List ℕ → Type 0
DeliversTo m bytes = (w : World) → ((m w).0 ≡ ok tt) × Sent w (heard w bytes) (m w).1

pub Sent-heard_closed :
    (w w' : World) (bytes : List ℕ) → w.closed ≡ true → Sent w [] w' → Sent w (heard w bytes) w'
Sent-heard_closed w w' bytes shut sent =
    subst (λ b. Sent w b w') (sym (ap (λ c. if c then [] else bytes) shut)) sent

pub Sent-heard_open :
    (w w' : World) (bytes : List ℕ) → w.closed ≡ false → Sent w bytes w' → Sent w (heard w bytes) w'
Sent-heard_open w w' bytes live sent =
    subst (λ b. Sent w b w') (sym (ap (λ c. if c then [] else bytes) live)) sent

-- A call that does nothing on a closed connection, and delivers on an open one.
pub by_state :
    {A : Type 0} (m : M World A) (bytes : List ℕ) (a b : A) (w : World)
    → (w.closed ≡ true → m w ≡ (ok a, w))
    → (w.closed ≡ false → (w' : World) × (m w ≡ (ok b, w')) × Sent w bytes w')
    → (((m >> return tt) w).0 ≡ ok tt) × Sent w (heard w bytes) ((m >> return tt) w).1
by_state {A} m bytes a b w silent sends = elim (Bool-cases w.closed) [
  | inl shut ↦ returned (silent shut) (Sent-heard_closed w w bytes shut (Sent-nil w))
  | inr live ↦ let (w', e, sent) = sends live in returned e (Sent-heard_open w w' bytes live sent)
]
  where
    returned :
        {c : A} {w' : World}
        → m w ≡ (ok c, w')
        → Sent w (heard w bytes) w'
        → (((m >> return tt) w).0 ≡ ok tt) × Sent w (heard w bytes) ((m >> return tt) w).1
    returned e sent =
        subst
          (λ r.
            ((continue r (λ _. return tt)).0 ≡ ok tt)
            × Sent w (heard w bytes) (continue r (λ _. return tt)).1)
          (sym e) (refl, sent)

-- `send` over a socket that makes progress.
pub send-DeliversTo :
    (net : Net) (room : ℕ) (bytes after : List ℕ)
    → Serves net room
    → length bytes ≤ room
    → DeliversTo (send net (bytes ++ after) (length bytes) >> return tt) bytes
send-DeliversTo net room bytes after serves fits w =
    by_state (send net (bytes ++ after) (length bytes)) bytes 0 (length bytes) w
      (send_closed net (bytes ++ after) (length bytes) w (omega (arith, serves.enough)))
      (Serves-Sent serves bytes after w fits)

abbrev pub after_all : (ℕ → M World (Unit {0})) → List ℕ → (ℕ → World) → ℕ → World
after_all m is worlds j = if has is j then (m j (worlds j)).1 else worlds j

pub on_connection-ok :
    (i : ℕ) (m : M World (Unit {0})) (h : Hub)
    → h.destroyed i ≡ false
    → (m (h.worlds i)).0 ≡ ok tt
    → on_connection i m h ≡ (ok tt, record h { worlds = put_world i (m (h.worlds i)).1 h.worlds })
unfolding on_connection
on_connection-ok i m h alive e = rw (alive, e) refl

pub Heard-nil : (w : World) → Sent w (heard w []) w
Heard-nil w = elim (Bool-cases w.closed) [
  | inl shut ↦ Sent-heard_closed w w [] shut (Sent-nil w)
  | inr live ↦ Sent-heard_open w w [] live (Sent-nil w)
]

pub Heard-trans :
    (w w' w'' : World) (xs ys : List ℕ)
    → Sent w (heard w xs) w'
    → Sent w' (heard w' ys) w''
    → Sent w (heard w (xs ++ ys)) w''
Heard-trans w w' w'' xs ys s t =
    subst (λ bytes. Sent w bytes w'')
      (ap (λ b. heard w xs ++ (if b then [] else ys)) s.same_closed ∙ together w.closed xs ys)
      (Sent-trans s t)
  where
    together :
        (b : Bool) (xs ys : List ℕ)
        → (if b then [] else xs) ++ (if b then [] else ys) ≡ (if b then [] else (xs ++ ys))
    together true xs ys = refl
    together false xs ys = refl

-- The connection at the front is not among the others, which come after it.
after_all-cons :
    (m : ℕ → M World (Unit {0})) (i : ℕ) (is : List ℕ) (worlds : ℕ → World) (j : ℕ)
    → Sorted (i ∷ is)
    → after_all m is (put_world i (m i (worlds i)).1 worlds) j ≡ after_all m (i ∷ is) worlds j
unfolding put_world
after_all-cons m i is worlds j (all, sorted) = elim (Bool-cases (j == i)) [
  | inl same ↦
      let e : i ≡ j = ground arith in
      let there : (i == j) ≡ true = ground arith in
      rw (same, there, has-below j is (subst (λ b. All (λ k. b < k) is) e all))
        (ap (λ k. (m k (worlds k)).1) e)
  | inr other ↦ let elsewhere : (i == j) ≡ false = ground arith in rw (other, elsewhere) refl
]

-- The loop goes through the connections once each, where they are in order, where there are all
-- of them, and where each call returns.
pub for_each-all :
    (m : ℕ → M World (Unit {0})) (is : List ℕ) (h : Hub)
    → Sorted is
    → ((i : ℕ) → h.destroyed i ≡ false)
    → ((i : ℕ) (w : World) → (m i w).0 ≡ ok tt)
    → for_each m is h ≡ (ok tt, record h { worlds = after_all m is h.worlds })
unfolding for_each
for_each-all m [] h sorted alive returns = refl
for_each-all m (i ∷ is) h sorted alive returns =
    ap (λ r. continue r (λ _. for_each m is))
      (on_connection-ok i (m i) h (alive i) (returns i (h.worlds i)))
    ∙ for_each-all m is (record h { worlds = put_world i (m i (h.worlds i)).1 h.worlds }) sorted.1
        alive returns
    ∙ ap (λ ws. (ok tt, record h { worlds = ws }))
        (λ k j. after_all-cons m i is h.worlds j sorted k)
