-- ===== src/Network/Invariant.antt =====
-- The invariant of a network state, over its operations.
use heterogeneous_network.Base.{ℕ, ◌≡◌, true, ◌&&◌, ==_iff, arith}
use heterogeneous_network.Base.Dict.{is_some}
use heterogeneous_network.Network.Node.{PartialNode}
use heterogeneous_network.Network.State.{NetworkState, update_node, connect}
use heterogeneous_network.Network.Views.{
  strong, weak, is_known, IsNamed, update_node-links, update_node-IsNamed, connect-IsNamed,
  connect-strong, connect-weak, connect-known, connect-priorities,
}
use heterogeneous_network.Network.Priority.{IsRanked, before}

pub record IsValid (s : NetworkState) : Type 0 where
  -- An object has the id at which it stands.
  pub named : IsNamed s
  pub ranked : IsRanked s
  -- A link is strong at one end and weak at the other, with one cost.
  pub symmetric : (x y : ℕ) → strong s x y ≡ weak s y x
  -- The strong end is the one that comes first.
  pub oriented : (x y : ℕ) → is_some (strong s x y) ≡ true → before s x y ≡ true
  -- Both ends are nodes of the state.
  pub present : (x y : ℕ) → is_some (strong s x y) ≡ true → is_known s y ≡ true

pub exclusive :
    (s : NetworkState) (x y : ℕ)
    → IsValid s
    → is_some (strong s x y) && is_some (weak s x y) ≡ true
    → x ≡ y
exclusive s x y h e =
    ground (arith, h.symmetric y x, h.oriented x y, h.oriented y x, ==_iff x y, ==_iff y x)

pub update_node-IsValid :
    (p : PartialNode) (s : NetworkState) → IsValid s → IsValid (update_node p s).1
update_node-IsValid p s h =
    let at = update_node-links p s in
    record {
      named = update_node-IsNamed p s h.named;
      ranked = record {
        bounded = λ x q. rw ((at x).3, (at x).4) (h.ranked.bounded x q);
        injective = λ x y q. rw (at x).3 (h.ranked.injective x y q);
      };
      symmetric = λ x y. rw ((at x).0, (at y).1) (h.symmetric x y);
      oriented = λ x y. rw ((at x).0, (at x).3) (h.oriented x y);
      present = λ x y e. ground (arith, h.present x y, (at x).0, at y);
    }

pub connect-IsValid :
    (a b c : ℕ) (s : NetworkState)
    → IsValid s
    → is_known s b ≡ true
    → before s a b ≡ true
    → IsValid (connect a b c s).1
connect-IsValid a b c s h k e =
    let ranks = connect-priorities a b c s h.named in
    record {
      named = connect-IsNamed a b c s h.named;
      ranked = record {
        bounded = λ x q. rw (ranks.0, ranks.1) (h.ranked.bounded x q);
        injective = λ x y q. rw ranks.0 (h.ranked.injective x y q);
      };
      symmetric = λ x y.
          rw (connect-strong a b c s h.named x y, connect-weak a b c s h.named y x)
            (ground (arith, h.symmetric x y));
      oriented = λ x y f. rw ranks.0 (
          ground
            (arith, connect-strong a b c s h.named x y, h.oriented x y, ==_iff a x, ==_iff b y));
      present = λ x y f. ground (
        arith,
        connect-strong a b c s h.named x y,
        connect-known a b c s h.named y,
        h.present x y,
        ==_iff b y,
      );
    }
