-- ===== src/Drain/Round.antt =====
-- The contract of a drain check, CheckScaleDownDrain of a component: what one call does with the phase
-- of the component's drain, and what it makes the cluster controller do.
use wazuh_operator.Common.{◌≡◌, refl, subst, ◌⊎◌, inl, inr, arith}
use wazuh_operator.Drain.Status.{
  DrainPhase, unset, idle, pending, draining, verifying, complete, failed, rolling_back,
}
use wazuh_operator.Drain.Worker.{Decision, wait, proceed, proceed_and_reset}

-- The phases in which the check only waits, and those in which it gives up.
pub data Holds : DrainPhase → Type 0 where
  hold_pending : Holds pending
  hold_draining : Holds draining
  hold_verifying : Holds verifying

pub data GivesUp : DrainPhase → Type 0 where
  up_unset : GivesUp unset
  up_idle : GivesUp idle
  up_verifying : GivesUp verifying
  up_failed : GivesUp failed
  up_rolling_back : GivesUp rolling_back

-- One call at a scale-down that is to be drained, where `Drained` says that nothing is left to drain.
pub data Round (Drained : Type 0) : DrainPhase → Decision → DrainPhase → Type 0 where
  start : Round Drained idle wait draining
  strand : Round Drained idle proceed pending
  give_up : {p : DrainPhase} → GivesUp p → Round Drained p proceed p
  hold : {p : DrainPhase} → Holds p → Round Drained p wait p
  advance : Round Drained draining wait verifying
  finish : Drained → Round Drained verifying proceed_and_reset complete
  release : Round Drained complete proceed_and_reset complete

pub retarget :
    {D : Type 0} {p q q' : DrainPhase} {d d' : Decision}
    → Round D p d q
    → d ≡ d'
    → q ≡ q'
    → Round D p d' q'
retarget {D} {p} {q} {q'} {d} {d'} r h k =
    subst (λ x. Round D p d' x) k (subst (λ x. Round D p x q) h r)

-- A call that releases the scale-down as drained, or leads to Complete, comes from Complete or has
-- seen that nothing is left.
pub Round-Drained :
    {Drained : Type 0} {p q : DrainPhase} {d : Decision}
    → Round Drained p d q
    → (d ≡ proceed_and_reset) ⊎ (q ≡ complete)
    → (p ≡ complete) ⊎ Drained
Round-Drained (finish h) k = inr h
Round-Drained release k = inl refl
Round-Drained start k = absurd (ground arith)
Round-Drained strand k = absurd (ground arith)
Round-Drained (give_up g) (inl k) = absurd (cc)
Round-Drained (give_up g) (inr k) = inl k
Round-Drained (hold g) (inl k) = absurd (cc)
Round-Drained (hold g) (inr k) = inl k
Round-Drained advance k = absurd (ground arith)
