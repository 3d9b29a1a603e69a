-- ===== src/Push/WsServer/Members.antt =====
-- Who is registered after a history.
use cppsocks.Base.{
  ℕ, Bool, true, false, List, [], ◌∷◌, ◌++◌, ◌==◌, if◌then◌else◌, Bool-cases, inl, inr, arith,
}
use cppsocks.Base.{◌≡◌, refl, sym, ap, ◌∙◌}
use mathlib.Core.Path.{subst}
use cppsocks.Base.Outcome.{Result, ok, err}
use cppsocks.Base.Effect.{continue}
use cppsocks.Push.{Hub, on_connection, for_each, push_all, add_conn, del_conn}
use cppsocks.Push.Registry.{has, Sorted, insert-Sorted, erase-Sorted, has-insert, has-erase}
use cppsocks.Push.Registry.Changes.{joins, leaves, member_change}
use cppsocks.Push.Delivery.Histories.{Act, calls, pushes, receives, Wiring, acts}
use cppsocks.Http.Ws.{Crypto}
use cppsocks.Push.WsServer.{put_at}
use cppsocks.Push.WsServer.Client.{
  Deed, part, asks, says, goes, Event, does, pushed, Phase, asking, talking, gone, next_phase,
  talks, May, acts_of,
}
use cppsocks.Push.WsServer.Runs.{all_acts, Orderly, Keeps, on_connection-Keeps, for_each-Keeps}

-- Whether connection `j` is registered after a history.
abbrev pub registered_after : {Q : Type 0} → ℕ → Bool → List (Act Q) → Bool
registered_after j registered [] = registered
registered_after j registered (calls c ∷ later) =
    registered_after j (member_change c (λ k. registered) j) later
registered_after j registered (pushes words ∷ later) = registered_after j registered later
registered_after j registered (receives i q ∷ later) = registered_after j registered later

module _ {Q : Type 0} (service : Wiring Q) (j : ℕ) where
  -- A history that returns.
  abbrev Ends : List (Act Q) → Bool → Result (Unit {0}) × Hub → Type 0
  Ends later registered r =
      r.0 ≡ ok tt → has r.1.connections j ≡ registered_after j registered later

  kept_then :
      (later : List (Act Q)) (h : Hub) (r : Result (Unit {0}) × Hub)
      → Keeps h r
      → Sorted h.connections
      → ((g : Hub) → Sorted g.connections → Ends later (has g.connections j) (acts service later g))
      → Ends later (has h.connections j) (continue r (λ _. acts service later))
  kept_then later h (ok t, g) kept sorted rest returned =
      rest g (subst Sorted (sym kept.0) sorted) returned
      ∙ ap (λ c. registered_after j (has c j) later) kept.0
  kept_then later h (err e, g) kept sorted rest returned = cc

  pub acts-registered :
      (later : List (Act Q)) (h : Hub)
      → Sorted h.connections
      → Ends later (has h.connections j) (acts service later h)
  unfolding add_conn del_conn push_all
  acts-registered [] h sorted returned = refl
  acts-registered (calls (joins i) ∷ later) h sorted returned =
      acts-registered later _ (insert-Sorted i h.connections sorted) returned
      ∙ ap (λ b. registered_after j b later) (has-insert i j h.connections)
  acts-registered (calls (leaves i) ∷ later) h sorted returned =
      acts-registered later _ (erase-Sorted i h.connections sorted) returned
      ∙ ap (λ b. registered_after j b later) (has-erase i j h.connections sorted)
  acts-registered (pushes words ∷ later) h sorted returned =
      kept_then later h (for_each (service.push_to words) h.connections h)
        (for_each-Keeps (service.push_to words) h.connections h) sorted (acts-registered later)
        returned
  acts-registered (receives i q ∷ later) h sorted returned =
      kept_then later h (on_connection i (service.answer_to q i) h)
        (on_connection-Keeps i (service.answer_to q i) h) sorted (acts-registered later) returned

registered_after-append :
    {Q : Type 0} (j : ℕ) (registered : Bool) (xs ys : List (Act Q))
    → registered_after j registered (xs ++ ys)
      ≡ registered_after j (registered_after j registered xs) ys
registered_after-append j registered [] ys = refl
registered_after-append j registered (calls c ∷ xs) ys =
    registered_after-append j (member_change c (λ k. registered) j) xs ys
registered_after-append j registered (pushes words ∷ xs) ys =
    registered_after-append j registered xs ys
registered_after-append j registered (receives i q ∷ xs) ys =
    registered_after-append j registered xs ys

-- How far client `j` is after a history.
abbrev pub phase_after : ℕ → Phase → List Event → Phase
phase_after j phase [] = phase
phase_after j phase (does i d ∷ later) =
    phase_after j (if i == j then next_phase phase d else phase) later
phase_after j phase (pushed words ∷ later) = phase_after j phase later

own_registered :
    (room : ℕ) (crypto : Crypto) (i : ℕ) (phase : Phase) (d : Deed)
    → May room crypto phase d
    → registered_after i (talks phase) (acts_of i phase d) ≡ talks (next_phase phase d)
own_registered room crypto i (asking received) (part bytes after) may = refl
own_registered room crypto i (asking received) (asks u last after) may =
    let self : (i == i) ≡ true = ground arith in rw self refl
own_registered room crypto i (asking received) (says m after) may = absurd may
own_registered room crypto i (asking received) goes may = refl
own_registered room crypto i talking (part bytes after) may = absurd may
own_registered room crypto i talking (asks u last after) may = absurd may
own_registered room crypto i talking (says m after) may = refl
own_registered room crypto i talking goes may =
    let self : (i == i) ≡ true = ground arith in rw self refl
own_registered room crypto i gone d may = absurd may

other_registered :
    (i j : ℕ) (phase : Phase) (registered : Bool) (d : Deed)
    → (j == i) ≡ false
    → registered_after j registered (acts_of i phase d) ≡ registered
other_registered i j phase registered (part bytes after) apart = refl
other_registered i j phase registered (asks u last after) apart = rw apart refl
other_registered i j phase registered (says m after) apart = refl
other_registered i j (asking received) registered goes apart = refl
other_registered i j talking registered goes apart = rw apart refl
other_registered i j gone registered goes apart = refl

-- The clients that talk are registered.
pub all_acts-registered :
    (room : ℕ) (crypto : Crypto) (j : ℕ) (events : List Event) (phases : ℕ → Phase)
    → Orderly room crypto phases events
    → registered_after j (talks (phases j)) (all_acts phases events)
      ≡ talks (phase_after j (phases j) events)
all_acts-registered room crypto j [] phases orderly = refl
all_acts-registered room crypto j (pushed words ∷ later) phases orderly =
    all_acts-registered room crypto j later phases orderly.1
all_acts-registered room crypto j (does i d ∷ later) phases orderly =
    let phases' = put_at i (next_phase (phases i) d) phases in
    let rest = all_acts-registered room crypto j later phases' orderly.1 in
    let step : registered_after j (talks (phases j)) (acts_of i (phases i) d) ≡ talks (phases' j) =
      elim (Bool-cases (i == j)) [
        | inl same ↦
            let e : i ≡ j = ground arith in
            rw same (
              subst
                (λ k.
                  registered_after j (talks (phases j)) (acts_of k (phases k) d)
                  ≡ talks (next_phase (phases k) d))
                (sym e)
                (own_registered room crypto j (phases j) d
                  (subst (λ k. May room crypto (phases k) d) e orderly.0)))
        | inr other ↦
            let other' : (j == i) ≡ false = ground arith in
            rw other (other_registered i j (phases i) (talks (phases j)) d other')
      ] in
    let here : phases' j ≡ (if i == j then next_phase (phases j) d else phases j) =
      elim (Bool-cases (i == j)) [
        | inl same ↦ let e : i ≡ j = ground arith in rw same (ap (λ k. next_phase (phases k) d) e)
        | inr other ↦ rw other refl
      ] in
    registered_after-append j (talks (phases j)) (acts_of i (phases i) d) (all_acts phases' later)
    ∙ ap (λ b. registered_after j b (all_acts phases' later)) step
    ∙ rest
    ∙ ap (λ p. talks (phase_after j p later)) here
