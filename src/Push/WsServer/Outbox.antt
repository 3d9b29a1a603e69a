-- ===== src/Push/WsServer/Outbox.antt =====
-- What a client of the WebSocket push server is to be sent, deed by deed and in the manager's
-- history.
use cppsocks.Base.{
  ℕ, true, false, Bool, List, [], ◌∷◌, ◌++◌, All, All-append, ◌==◌, if◌then◌else◌, Bool-cases, inl,
  inr,
}
use cppsocks.Base.{◌≡◌, refl, sym, ap, ◌∙◌, arith}
use mathlib.Core.Path.{subst}
use cppsocks.Frame.{opcode_text, opcode_binary}
use cppsocks.Frame.Wire.{plain_frame}
use cppsocks.Tcp.Connection.{Net}
use cppsocks.Http.Ws.{Crypto}
use cppsocks.Http.Server.Echo.{accepting}
use cppsocks.Push.Delivery.Histories.{Act, inbox, Suits}
use cppsocks.Push.Delivery.Servers.{IsMessage}
use cppsocks.Push.WsServer.{put_at}
use cppsocks.Push.WsServer.Client.{
  Deed, part, asks, says, goes, Event, does, pushed, Phase, asking, talking, gone, next_phase,
  talks, Asked, May, IsAsked, acts_of, site_service,
}
use cppsocks.Push.WsServer.Runs.{all_acts, Orderly}

-- What a client's deed has the server send it.
abbrev pub reply : Crypto → Deed → List ℕ
reply crypto (part bytes after) = []
reply crypto (asks u last after) = accepting crypto u.key
reply crypto (says m after) = plain_frame true opcode_binary m.payload
reply crypto goes = []

-- What connection `j` is to be sent, from a phase on: the replies to its own deeds, and each text
-- that is pushed while it talks.
abbrev pub outbox : Crypto → ℕ → Phase → List Event → List ℕ
outbox crypto j phase [] = []
outbox crypto j phase (does i d ∷ later) =
    let others = outbox crypto j phase later in
    let mine = reply crypto d ++ outbox crypto j (next_phase phase d) later in
    if i == j then mine else others
outbox crypto j phase (pushed words ∷ later) =
    (if talks phase then plain_frame true opcode_text words else []) ++ outbox crypto j phase later

module _ (nets : ℕ → Net) (crypto : Crypto) where
  abbrev inbox_of : ℕ → Bool → List (Act Asked) → List ℕ
  inbox_of = inbox (site_service nets crypto)

  -- What a client's acts do for itself and for the others.
  own_acts :
      (i : ℕ) (phase : Phase) (d : Deed) (room : ℕ) (later : List (Act Asked))
      → May room crypto phase d
      → inbox_of i (talks phase) (acts_of i phase d ++ later)
        ≡ reply crypto d ++ inbox_of i (talks (next_phase phase d)) later
  own_acts i (asking received) (part bytes after) room later may = refl
  own_acts i (asking received) (asks u last after) room later may =
      let self : (i == i) ≡ true = ground arith in rw self refl
  own_acts i (asking received) (says m after) room later may = absurd may
  own_acts i (asking received) goes room later may = refl
  own_acts i talking (part bytes after) room later may = absurd may
  own_acts i talking (asks u last after) room later may = absurd may
  own_acts i talking (says m after) room later may =
      let self : (i == i) ≡ true = ground arith in rw self refl
  own_acts i talking goes room later may = let self : (i == i) ≡ true = ground arith in rw self refl
  own_acts i gone d room later may = absurd may

  others_acts :
      (i j : ℕ) (phase : Phase) (registered : Bool) (d : Deed) (later : List (Act Asked))
      → (i == j) ≡ false
      → (j == i) ≡ false
      → inbox_of j registered (acts_of i phase d ++ later) ≡ inbox_of j registered later
  others_acts i j phase registered (part bytes after) later apart apart' = refl
  others_acts i j phase registered (asks u last after) later apart apart' = rw (apart, apart') refl
  others_acts i j phase registered (says m after) later apart apart' = rw apart refl
  others_acts i j (asking received) registered goes later apart apart' = refl
  others_acts i j talking registered goes later apart apart' = rw apart' refl
  others_acts i j gone registered goes later apart apart' = refl

  pub inbox-outbox :
      (room j : ℕ) (events : List Event) (phases : ℕ → Phase)
      → Orderly room crypto phases events
      → inbox_of j (talks (phases j)) (all_acts phases events) ≡ outbox crypto j (phases j) events
  inbox-outbox room j [] phases orderly = refl
  inbox-outbox room j (pushed words ∷ later) phases orderly =
      ap (λ m. (if talks (phases j) then plain_frame true opcode_text words else []) ++ m)
        (inbox-outbox room j later phases orderly.1)
  inbox-outbox room j (does i d ∷ later) phases orderly =
      let phases' = put_at i (next_phase (phases i) d) phases in
      let rest = inbox-outbox room j later phases' orderly.1 in
      elim (Bool-cases (i == j)) [
        | inl same ↦
            let e : i ≡ j = ground arith in
            let here : phases' j ≡ next_phase (phases j) d =
              ap (λ b. if b then next_phase (phases i) d else phases j) same
              ∙ ap (λ k. next_phase (phases k) d) e in
            subst
              (λ k.
                inbox_of j (talks (phases j)) (acts_of k (phases k) d ++ all_acts phases' later)
                ≡ reply crypto d ++ outbox crypto j (next_phase (phases j) d) later)
              (sym e)
              (own_acts j (phases j) d room (all_acts phases' later)
                  (subst (λ k. May room crypto (phases k) d) e orderly.0)
                ∙ ap (λ m. reply crypto d ++ m)
                    (sym (ap (λ p. inbox_of j (talks p) (all_acts phases' later)) here)
                      ∙ rest
                      ∙ ap (λ p. outbox crypto j p later) here))
            ∙ sym (
                ap
                  (λ b.
                    if b
                    then reply crypto d ++ outbox crypto j (next_phase (phases j) d) later
                    else outbox crypto j (phases j) later)
                  same)
        | inr other ↦
            let other' : (j == i) ≡ false = ground arith in
            let here : phases' j ≡ phases j =
              ap (λ b. if b then next_phase (phases i) d else phases j) other in
            others_acts i j (phases i) (talks (phases j)) d (all_acts phases' later) other other'
            ∙ sym (ap (λ p. inbox_of j (talks p) (all_acts phases' later)) here)
            ∙ rest
            ∙ ap (λ p. outbox crypto j p later) here
            ∙ sym (
                ap
                  (λ b.
                    if b
                    then reply crypto d ++ outbox crypto j (next_phase (phases j) d) later
                    else outbox crypto j (phases j) later)
                  other)
      ]

  acts_of-Suits :
      (room i : ℕ) (phase : Phase) (d : Deed)
      → May room crypto phase d
      → All
          (Suits (site_service nets crypto) (IsMessage room) (IsAsked room crypto))
          (acts_of i phase d)
  acts_of-Suits room i phase (part bytes after) may = tt
  acts_of-Suits room i (asking received) (asks u last after) may = (may.0.answer_fits, (tt, tt))
  acts_of-Suits room i talking (asks u last after) may = absurd may
  acts_of-Suits room i gone (asks u last after) may = absurd may
  acts_of-Suits room i (asking received) (says m after) may = absurd may
  acts_of-Suits room i talking (says m after) may = (may.0.2, tt)
  acts_of-Suits room i gone (says m after) may = absurd may
  acts_of-Suits room i (asking received) goes may = tt
  acts_of-Suits room i talking goes may = (tt, tt)
  acts_of-Suits room i gone goes may = absurd may

  pub all_acts-Suits :
      (room : ℕ) (events : List Event) (phases : ℕ → Phase)
      → Orderly room crypto phases events
      → All
          (Suits (site_service nets crypto) (IsMessage room) (IsAsked room crypto))
          (all_acts phases events)
  all_acts-Suits room [] phases orderly = tt
  all_acts-Suits room (pushed words ∷ later) phases orderly =
      (orderly.0, all_acts-Suits room later phases orderly.1)
  all_acts-Suits room (does i d ∷ later) phases orderly =
      All-append (Suits (site_service nets crypto) (IsMessage room) (IsAsked room crypto))
        (acts_of i (phases i) d) (all_acts (put_at i (next_phase (phases i) d) phases) later)
        (acts_of-Suits room i (phases i) d orderly.0)
        (all_acts-Suits room later (put_at i (next_phase (phases i) d) phases) orderly.1)
