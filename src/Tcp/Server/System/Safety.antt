-- ===== src/Tcp/Server/System/Safety.antt =====
-- What holds in every state that the threads can reach together.
use mathlib.Core.List.{Perm}
use mathlib.Core.List.Perm
use mathlib.Core.List.{Permᴰ}
use mathlib.Core.Path.{subst}
use mathlib.Core.Logic.{∥∥₁_elim}
use native.Mathlib.Nat.{ℕ_set}
use cppsocks.Base.{
  ℕ, suc, ◌+◌, ◌≤◌, Bool, true, false, not, List, [], ◌∷◌, ◌++◌, length, ◌==◌, if◌then◌else◌, All,
  All-append, Bool-cases, inl, inr, ltb,
}
use cppsocks.Base.{◌≡◌, refl, ap, ap₂, ◌∙◌, arith}
use cppsocks.Base.Outcome.{Result, ok, runtime_error}
use cppsocks.Base.Effect.{raise}
use cppsocks.Tcp.Worker.{ServerHandler}
use cppsocks.Tcp.Server.{
  Server, Accepted, nobody, client, broken_client, failed, Tick, sweep, cleanup, start_worker,
  turn_away, admit, on_accepted,
}
use cppsocks.Tcp.Server.Laws.{upto, Inv, on_accepted-Inv, sweep-IsSwept}
use cppsocks.Tcp.Server.System.{
  System, mark, tick_of, Step, serves, ends, Reach, start, later, count,
}

count-Permᴰ : (p : ℕ → Bool) {xs ys : List ℕ} → Permᴰ xs ys → count p xs ≡ count p ys
count-Permᴰ p Permᴰ.nil = refl
count-Permᴰ p (Permᴰ.cons e d) = ap₂ (λ x n. if p x then suc n else n) e (count-Permᴰ p d)
count-Permᴰ p (Permᴰ.swap {a} {b} {a'} {b'} {l} e e') =
    ap₂ (λ x y. count p (x ∷ y ∷ l)) e e' ∙ swapped b' a' (count p l)
  where
    swapped :
        (x y n : ℕ)
        → (if p x then suc (if p y then suc n else n) else (if p y then suc n else n))
          ≡ (if p y then suc (if p x then suc n else n) else (if p x then suc n else n))
    swapped x y n = ground arith
count-Permᴰ p (Permᴰ.trans d d') = count-Permᴰ p d ∙ count-Permᴰ p d'

count-Perm : (p : ℕ → Bool) {xs ys : List ℕ} → Perm xs ys → count p xs ≡ count p ys
count-Perm p {xs} {ys} h = ∥∥₁_elim h (ℕ_set (count p xs) (count p ys)) (λ d. count-Permᴰ p d)

count-append : (p : ℕ → Bool) (xs ys : List ℕ) → count p (xs ++ ys) ≡ count p xs + count p ys
count-append p [] ys = omega arith
count-append p (x ∷ xs) ys = ground (arith, count-append p xs ys)

count-le : (p : ℕ → Bool) (xs : List ℕ) → count p xs ≤ length xs
count-le p [] = omega arith
count-le p (x ∷ xs) = ground (arith, count-le p xs)

count-none : (p : ℕ → Bool) (xs : List ℕ) → All (λ x. p x ≡ false) xs → count p xs ≡ 0
count-none p [] t = refl
count-none p (x ∷ xs) (first, rest) = rw first (count-none p xs rest)

-- Among the workers that were joined none has a thread that runs.
pub record Safe (max_clients : ℕ) (s : System) : Type 0 where
  pub inv : Inv max_clients s.server
  pub joined_ended : All (λ i. not (s.is_ended i) ≡ false) s.server.joined

All-map : {P Q : ℕ → Type 0} (xs : List ℕ) → ((x : ℕ) → P x → Q x) → All P xs → All Q xs
All-map [] f t = t
All-map (x ∷ xs) f (first, rest) = (f x first, All-map xs f rest)

module _ (max_clients : ℕ) (t : Tick) where
  abbrev Ended : ℕ → Type 0
  Ended i = not (t.is_finished i) ≡ false

  cleanup-Ended : (s : Server) → All Ended s.joined → All Ended (cleanup t.is_finished s).joined
  unfolding cleanup
  cleanup-Ended s h = All-append Ended s.joined (sweep t.is_finished s.workers).finished h (
      All-map (sweep t.is_finished s.workers).finished (λ i e. ap not e)
        (sweep-IsSwept t.is_finished s.workers).joined_finished)

  admit-Ended :
      (refuse : Server → Result (Unit {0}) × Server) (s : Server)
      → All Ended s.joined
      → All Ended (refuse s).1.joined
      → All Ended (admit max_clients refuse s).1.joined
  unfolding admit start_worker
  admit-Ended refuse s h refused = elim (Bool-cases (ltb (length s.workers) max_clients)) [
    | inl room ↦ rw room h
    | inr full ↦ rw full refused
  ]

  on_accepted-Ended :
      (s : Server) → All Ended s.joined → All Ended (on_accepted max_clients t s).1.joined
  unfolding on_accepted turn_away
  on_accepted-Ended s h = by_answer t.accepted
    where
      swept : All Ended (cleanup t.is_finished s).joined
      swept = cleanup-Ended s h

      by_answer :
          (a : Accepted)
          → All Ended (on_accepted max_clients (record t { accepted = a }) s).1.joined
      by_answer nobody = h
      by_answer client =
          admit-Ended (λ s'. (ok tt, turn_away s')) (cleanup t.is_finished s) swept swept
      by_answer broken_client =
          admit-Ended (raise runtime_error) (cleanup t.is_finished s) swept swept
      by_answer failed = h

module _ {S : Type 0} (handler : ServerHandler S) (max_clients : ℕ) where
  Step-Safe :
      (s t : System) → Safe max_clients s → Step handler max_clients s t → Safe max_clients t
  Step-Safe s t safe (serves accepted server' e) = record {
    inv =
        subst (λ r. Inv max_clients r.1) e
          (on_accepted-Inv max_clients (tick_of s accepted) s.server safe.inv);
    joined_ended =
        subst (λ r. All (λ i. not (s.is_ended i) ≡ false) r.1.joined) e
          (on_accepted-Ended max_clients (tick_of s accepted) s.server safe.joined_ended);
  }
  Step-Safe s t safe (ends i rs buf w w' started running ran) = record {
    inv = safe.inv;
    joined_ended = All-map s.server.joined stays safe.joined_ended;
  }
    where
      stays : (k : ℕ) → not (s.is_ended k) ≡ false → not (mark i s.is_ended k) ≡ false
      stays k h = elim (Bool-cases (k == i)) [ inl same ↦ rw same refl | inr other ↦ rw other h ]

  Reach-Safe : (s : System) → Reach handler max_clients s → Safe max_clients s
  Reach-Safe s start = record {
    inv = record { bounded = omega arith; accounted = Perm.refl [] };
    joined_ended = tt;
  }
  Reach-Safe t (later {s} reached step) = Step-Safe s t (Reach-Safe s reached) step

-- The threads that run.
abbrev pub running : System → ℕ
running s = count (λ i. not (s.is_ended i)) (upto s.server.started)

running-workers :
    (max_clients : ℕ) (s : System)
    → Safe max_clients s
    → running s ≡ count (λ i. not (s.is_ended i)) s.server.workers
running-workers max_clients s safe =
    let p : ℕ → Bool = λ i. not (s.is_ended i) in
    omega (
      arith,
      count-Perm p safe.inv.accounted,
      count-append p s.server.workers s.server.joined,
      count-none p s.server.joined safe.joined_ended,
    )

-- However the threads interleave, from an idle server on, where a thread counts as running until
-- its `run` has put its flag `_isActive` down: never do more workers' threads run than
-- `max_clients`, and each worker that the server has joined had ended before.
pub threads_bounded :
    {S : Type 0} (handler : ServerHandler S) (max_clients : ℕ) (s : System)
    → Reach handler max_clients s
    → (running s ≤ max_clients) × All (λ k. s.is_ended k ≡ true) s.server.joined
threads_bounded handler max_clients s reached =
    let safe = Reach-Safe handler max_clients s reached in
    (
      omega (
        arith,
        running-workers max_clients s safe,
        count-le (λ i. not (s.is_ended i)) s.server.workers,
        safe.inv.bounded,
      ),
      All-map s.server.joined (λ i h. has_ended (s.is_ended i) h) safe.joined_ended,
    )
  where
    has_ended : (b : Bool) → not b ≡ false → b ≡ true
    has_ended true h = refl
    has_ended false h = cc h
