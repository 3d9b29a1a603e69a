-- ===== src/Push/Registry/Changes.antt =====
-- The calls of `addConn` and `delConn`, in any order, against a set that is its members.
use cppsocks.Base.{ℕ, Bool, not, ◌&&◌, ◌||◌, List, [], ◌∷◌, ◌==◌, ◌≡◌, refl, sym, ap, ap₂, ◌∙◌}
use cppsocks.Base.Outcome.{Result, ok}
use mathlib.Core.Path.{subst}
use cppsocks.Base.Effect.{M, return, ◌>>◌}
use cppsocks.Push.{Hub, insert, erase, add_conn, del_conn}
use cppsocks.Push.Registry.{
  has, Sorted, insert-Sorted, erase-Sorted, has-insert, has-erase, Sorted-unique,
}

pub data Change : Type 0 where
  joins leaves : ℕ → Change

abbrev pub change : Change → M Hub (Unit {0})
change (joins i) = add_conn i
change (leaves i) = del_conn i

abbrev pub changes : List Change → M Hub (Unit {0})
changes [] = return tt
changes (c ∷ cs) = change c >> changes cs

-- A set as its test of membership.
abbrev pub Members : Type 0
Members = ℕ → Bool

abbrev pub member_change : Change → Members → Members
member_change (joins i) members k = (k == i) || members k
member_change (leaves i) members k = not (k == i) && members k

abbrev pub member_changes : List Change → Members → Members
member_changes [] members = members
member_changes (c ∷ cs) members = member_changes cs (member_change c members)

-- A manager stands for a set where its elements are in order, each of them once.
pub record Stands (connections : List ℕ) (members : Members) : Type 0 where
  pub sorted : Sorted connections
  pub same : (k : ℕ) → has connections k ≡ members k

pub Stands-joins :
    (i : ℕ) (connections : List ℕ) (members : Members)
    → Stands connections members
    → Stands (insert i connections) (member_change (joins i) members)
Stands-joins i connections members h = record {
  sorted = insert-Sorted i connections h.sorted;
  same = λ k. has-insert i k connections ∙ ap (λ b. (k == i) || b) (h.same k);
}

pub Stands-leaves :
    (i : ℕ) (connections : List ℕ) (members : Members)
    → Stands connections members
    → Stands (erase i connections) (member_change (leaves i) members)
Stands-leaves i connections members h = record {
  sorted = erase-Sorted i connections h.sorted;
  same = λ k. has-erase i k connections h.sorted ∙ ap (λ b. not (k == i) && b) (h.same k);
}

-- What a list of calls makes of a manager: the calls return, the connections themselves stay as
-- they are, and the manager stands for the set that the same changes make.
pub record Changed (h : Hub) (members : Members) (r : Result (Unit {0}) × Hub) : Type 0 where
  pub returned : r.0 ≡ ok tt
  pub stands : Stands r.1.connections members
  pub same_worlds : r.1.worlds ≡ h.worlds
  pub same_destroyed : r.1.destroyed ≡ h.destroyed

other_connections :
    (h : Hub) (members : Members) (connections : List ℕ) (r : Result (Unit {0}) × Hub)
    → Changed (record h { connections = connections }) members r
    → Changed h members r
other_connections h members connections r c = record {
  returned = c.returned;
  stands = c.stands;
  same_worlds = c.same_worlds;
  same_destroyed = c.same_destroyed;
}

-- Any calls of `addConn` and `delConn` return and leave the connections alone, and the manager
-- stands for the set that the changes make of the set that it stood for before.
pub changes-Changed :
    (cs : List Change) (h : Hub) (members : Members)
    → Stands h.connections members
    → Changed h (member_changes cs members) (changes cs h)
unfolding add_conn del_conn
changes-Changed [] h members stands = record {
  returned = refl;
  stands = stands;
  same_worlds = refl;
  same_destroyed = refl;
}
changes-Changed (joins i ∷ cs) h members stands = other_connections h _ (insert i h.connections) _ (
    changes-Changed cs (record h { connections = insert i h.connections })
      (member_change (joins i) members) (Stands-joins i h.connections members stands))
changes-Changed (leaves i ∷ cs) h members stands = other_connections h _ (erase i h.connections) _ (
    changes-Changed cs (record h { connections = erase i h.connections })
      (member_change (leaves i) members) (Stands-leaves i h.connections members stands))

same_hub :
    (g g' : Hub)
    → g.connections ≡ g'.connections
    → g.worlds ≡ g'.worlds
    → g.destroyed ≡ g'.destroyed
    → g ≡ g'
same_hub g g' c w d i = record { connections = c i; worlds = w i; destroyed = d i }

Stands-unique :
    (xs ys : List ℕ) (members : Members) → Stands xs members → Stands ys members → xs ≡ ys
Stands-unique xs ys members s t =
    Sorted-unique xs ys s.sorted t.sorted (λ k. s.same k ∙ sym (t.same k))

Changed-unique :
    (h : Hub) (members : Members) (r r' : Result (Unit {0}) × Hub)
    → Changed h members r
    → Changed h members r'
    → r ≡ r'
Changed-unique h members (result, g) (result', g') c d =
    ap₂ (λ a b. (a, b)) (c.returned ∙ sym d.returned)
      (same_hub g g' (Stands-unique g.connections g'.connections members c.stands d.stands)
        (c.same_worlds ∙ sym d.same_worlds) (c.same_destroyed ∙ sym d.same_destroyed))

-- Two histories of calls that make the same set of the registered connections leave the manager
-- in the same state, so that a push that follows does the same, in the same order. The manager
-- stands for a set before them.
pub order_leaves_no_trace :
    (cs ds : List Change) (h : Hub) (members : Members)
    → Stands h.connections members
    → member_changes cs members ≡ member_changes ds members
    → changes cs h ≡ changes ds h
order_leaves_no_trace cs ds h members stands same_set =
    let c = changes-Changed cs h members stands in
    let d = changes-Changed ds h members stands in
    Changed-unique h (member_changes ds members) (changes cs h) (changes ds h)
      (subst (λ m. Changed h m (changes cs h)) same_set c) d
