-- ===== src/Push/Delivery/Histories.antt =====
-- Every history of a manager: connections that come and go, messages to all of them, and bytes
-- that a connection receives and sends back.
use cppsocks.Base.{
  ℕ, Bool, false, List, [], ◌∷◌, ◌++◌, All, ◌==◌, if◌then◌else◌, Bool-cases, inl, inr,
}
use cppsocks.Base.{◌≡◌, refl, sym, ap, arith}
use mathlib.Core.Path.{subst}
use cppsocks.Base.Outcome.{Result, ok}
use cppsocks.Base.Effect.{M, continue, return, ◌>>◌}
use cppsocks.Tcp.Connection.{put_world, World}
use cppsocks.Tcp.Connection.Laws.{Sent}
use cppsocks.Push.{Hub, insert, erase, add_conn, del_conn, on_connection, push_all}
use cppsocks.Push.Registry.{has, Sorted, insert-Sorted, erase-Sorted, has-insert, has-erase}
use cppsocks.Push.Registry.Changes.{Change, joins, leaves, change, member_change}
use cppsocks.Push.Delivery.{
  heard, DeliversTo, after_all, on_connection-ok, for_each-all, Heard-nil, Heard-trans,
}

-- `Q` is what a server can receive from a client.
pub data Act (Q : Type 0) : Type 0 where
  calls : Change → Act Q
  pushes : List ℕ → Act Q
  receives : ℕ → Q → Act Q

-- How a server pushes a message to a connection and how it answers one, each with what that is on
-- the wire.
pub record Wiring (Q : Type 0) : Type 0 where
  pub push_to : List ℕ → ℕ → M World (Unit {0})
  pub answer_to : Q → ℕ → M World (Unit {0})
  pub push_wire : List ℕ → List ℕ
  pub answer_wire : Q → List ℕ

module _ {Q : Type 0} (service : Wiring Q) where
  abbrev pub act : Act Q → M Hub (Unit {0})
  act (calls c) = change c
  act (pushes bytes) = push_all (service.push_to bytes)
  act (receives i q) = on_connection i (service.answer_to q i)

  abbrev pub acts : List (Act Q) → M Hub (Unit {0})
  acts [] = return tt
  acts (a ∷ later) = act a >> acts later

  -- What connection `j` is to be sent, where it is registered at first or not.
  abbrev pub inbox : ℕ → Bool → List (Act Q) → List ℕ
  inbox j registered [] = []
  inbox j registered (calls c ∷ later) = inbox j (member_change c (λ k. registered) j) later
  inbox j registered (pushes bytes ∷ later) =
      (if registered then service.push_wire bytes else []) ++ inbox j registered later
  inbox j registered (receives i q ∷ later) =
      (if i == j then service.answer_wire q else []) ++ inbox j registered later

  -- The messages suit the service.
  abbrev pub Suits : (List ℕ → Type 0) → (Q → Type 0) → Act Q → Type 0
  Suits P R (calls c) = Unit {0}
  Suits P R (pushes bytes) = P bytes
  Suits P R (receives i q) = R q

  -- Where a message suits, both calls return, with the wire's form of it on an open connection.
  pub record Works (P : List ℕ → Type 0) (R : Q → Type 0) : Type 0 where
    pub push_works :
        (bytes : List ℕ) (i : ℕ)
        → P bytes
        → DeliversTo (service.push_to bytes i) (service.push_wire bytes)
    pub answer_works :
        (q : Q) (i : ℕ) → R q → DeliversTo (service.answer_to q i) (service.answer_wire q)

  -- What a history makes of connection `j`.
  abbrev pub Heard : Hub → ℕ → List ℕ → Result (Unit {0}) × Hub → Type 0
  Heard h j bytes r = (r.0 ≡ ok tt) × Sent (h.worlds j) (heard (h.worlds j) bytes) (r.1.worlds j)

  module _ (P : List ℕ → Type 0) (R : Q → Type 0) (works : Works P R) (j : ℕ) where
    abbrev Whole : List (Act Q) → Hub → Type 0
    Whole later h = Heard h j (inbox j (has h.connections j) later) (acts later h)

    -- A first act that leaves the registered connections alone.
    then_rest :
        (a : Act Q) (later : List (Act Q)) (h : Hub) (worlds : ℕ → World) (bytes : List ℕ)
        → act a h ≡ (ok tt, record h { worlds = worlds })
        → inbox j (has h.connections j) (a ∷ later) ≡ bytes ++ inbox j (has h.connections j) later
        → Sent (h.worlds j) (heard (h.worlds j) bytes) (worlds j)
        → Whole later (record h { worlds = worlds })
        → Whole (a ∷ later) h
    then_rest a later h worlds bytes e parts sent rest =
        let both : Heard h j (bytes ++ inbox j (has h.connections j) later)
            (acts later (record h { worlds = worlds })) =
          (rest.0, Heard-trans (h.worlds j) (worlds j) _ bytes _ sent rest.1) in
        subst (λ r. Heard h j (inbox j (has h.connections j) (a ∷ later)) r)
          (sym (ap (λ r. continue r (λ _. acts later)) e))
          (subst (λ b. Heard h j b (acts later (record h { worlds = worlds }))) (sym parts) both)

    push_one :
        (bytes : List ℕ) (h : Hub)
        → P bytes
        → Sent
            (h.worlds j)
            (heard (h.worlds j) (if has h.connections j then service.push_wire bytes else []))
            (after_all (service.push_to bytes) h.connections h.worlds j)
    push_one bytes h suits = elim (Bool-cases (has h.connections j)) [
      | inl there ↦ rw there (works.push_works bytes j suits (h.worlds j)).1
      | inr absent ↦ rw absent (Heard-nil (h.worlds j))
    ]

    answer_one :
        (i : ℕ) (q : Q) (h : Hub)
        → R q
        → Sent
            (h.worlds j)
            (heard (h.worlds j) (if i == j then service.answer_wire q else []))
            (put_world i (service.answer_to q i (h.worlds i)).1 h.worlds j)
    unfolding put_world
    answer_one i q h suits = elim (Bool-cases (i == j)) [
      | inl same ↦
          let e : i ≡ j = ground arith in
          rw same (
            subst
              (λ k.
                Sent (h.worlds k) (heard (h.worlds k) (service.answer_wire q))
                  (service.answer_to q i (h.worlds i)).1)
              e (works.answer_works q i suits (h.worlds i)).1)
      | inr other ↦ rw other (Heard-nil (h.worlds j))
    ]

    pub history-Heard :
        (later : List (Act Q)) (h : Hub)
        → Sorted h.connections
        → ((i : ℕ) → h.destroyed i ≡ false)
        → All (Suits P R) later
        → Heard h j (inbox j (has h.connections j) later) (acts later h)
    unfolding add_conn del_conn
    history-Heard [] h sorted alive suits = (refl, Heard-nil (h.worlds j))
    history-Heard (calls (joins i) ∷ later) h sorted alive suits =
        subst (λ b. Heard h j (inbox j b later) (acts (calls (joins i) ∷ later) h))
          (has-insert i j h.connections)
          (history-Heard later (record h { connections = insert i h.connections })
            (insert-Sorted i h.connections sorted) alive suits.1)
    history-Heard (calls (leaves i) ∷ later) h sorted alive suits =
        subst (λ b. Heard h j (inbox j b later) (acts (calls (leaves i) ∷ later) h))
          (has-erase i j h.connections sorted)
          (history-Heard later (record h { connections = erase i h.connections })
            (erase-Sorted i h.connections sorted) alive suits.1)
    history-Heard (pushes bytes ∷ later) h sorted alive suits =
        then_rest (pushes bytes) later h (after_all (service.push_to bytes) h.connections h.worlds)
          _
          (unfold push_all in
            for_each-all (service.push_to bytes) h.connections h sorted alive
              (λ i w. (works.push_works bytes i suits.0 w).0))
          refl (push_one bytes h suits.0)
          (history-Heard later
            (record h { worlds = after_all (service.push_to bytes) h.connections h.worlds }) sorted
            alive suits.1)
    history-Heard (receives i q ∷ later) h sorted alive suits =
        then_rest (receives i q) later h
          (put_world i (service.answer_to q i (h.worlds i)).1 h.worlds) _
          (on_connection-ok i (service.answer_to q i) h (alive i)
            (works.answer_works q i suits.0 (h.worlds i)).0)
          refl (answer_one i q h suits.0)
          (history-Heard later
            (record h { worlds = put_world i (service.answer_to q i (h.worlds i)).1 h.worlds })
            sorted alive suits.1)
