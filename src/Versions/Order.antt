-- ===== src/Versions/Order.antt =====
-- Compare, LessThan and GreaterThanOrEqual of pkg/versions/versions.go.
use wazuh_operator.Common.{
  ◌≡◌, ◌↔◌, ◌⊎◌, inl, inr, ◌∙◌, ◌<ℤ◌, true, false, not, ◌&&◌, arith, ℤ, pos, ◌-ℤ◌,
}
use wazuh_operator.Versions.{Version, compare, less_than, greater_than_or_equal}

-- The lexicographic order.
abbrev Below : Version → Version → Type 0
Below v w =
    (v.major <ℤ w.major)
    ⊎ ((v.major ≡ w.major) × (v.minor <ℤ w.minor))
    ⊎ ((v.major ≡ w.major) × (v.minor ≡ w.minor) × (v.patch <ℤ w.patch))

less_than→Below : (v w : Version) → less_than v w ≡ true → Below v w
unfolding less_than
less_than→Below v w h = ground arith

Below→less_than : (v w : Version) → Below v w → less_than v w ≡ true
unfolding less_than
Below→less_than v w h = ground arith

<ℤ_trans : (a b c : ℤ) → a <ℤ b → b <ℤ c → a <ℤ c
<ℤ_trans a b c h k = omega arith

Below-trans : (u v w : Version) → Below u v → Below v w → Below u w
Below-trans u v w (inl a) (inl b) = inl (<ℤ_trans u.major v.major w.major a b)
Below-trans u v w (inl a) (inr (inl (e, b))) = inl (rw e at a)
Below-trans u v w (inl a) (inr (inr (e, f, b))) = inl (rw e at a)
Below-trans u v w (inr (inl (e, a))) (inl b) = inl (rw e b)
Below-trans u v w (inr (inl (e, a))) (inr (inl (e', b))) =
    inr (inl (e ∙ e', <ℤ_trans u.minor v.minor w.minor a b))
Below-trans u v w (inr (inl (e, a))) (inr (inr (e', f', b))) = inr (inl (e ∙ e', rw f' at a))
Below-trans u v w (inr (inr (e, f, a))) (inl b) = inl (rw e b)
Below-trans u v w (inr (inr (e, f, a))) (inr (inl (e', b))) = inr (inl (e ∙ e', rw f b))
Below-trans u v w (inr (inr (e, f, a))) (inr (inr (e', f', b))) =
    inr (inr (e ∙ e', f ∙ f', <ℤ_trans u.patch v.patch w.patch a b))

pub less_than_trans :
    (u v w : Version) → less_than u v ≡ true → less_than v w ≡ true → less_than u w ≡ true
less_than_trans u v w h k =
    Below→less_than u w (Below-trans u v w (less_than→Below u v h) (less_than→Below v w k))

less_than_chain : (u v w : Version) → less_than u v && less_than v w && not (less_than u w) ≡ false
less_than_chain u v w = ground (arith, less_than_trans u v w)

-- Compare is antisymmetric, and 0 only at equal versions; LessThan is transitive, and
-- GreaterThanOrEqual is its negation.
pub compare_order :
    (u v w : Version)
    → ((compare v w ≡ pos 0) ↔ (v ≡ w))
      × (compare w v ≡ pos 0 -ℤ compare v w)
      × (greater_than_or_equal v w ≡ not (less_than v w))
      × (less_than u v && less_than v w && not (less_than u w) ≡ false)
unfolding compare less_than greater_than_or_equal ◌-ℤ◌
compare_order u v w = (ground arith, ground arith, ground arith, less_than_chain u v w)
