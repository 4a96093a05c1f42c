-- ===== src/Safety/Expiry.antt =====
-- The invariant under the expiry of outputs, which takes away artifacts alone.
use task_harbor.Base.{ℕ, ◌≡◌, subst, List, arith, ok}
use task_harbor.Clock.{Time}
use task_harbor.Core.{Text}
use task_harbor.Queue.{ClaimedJob}
use task_harbor.Maintenance.{Retained, expire_output_artifacts}
use task_harbor.Safety.{Inv}

pub expire_output_artifacts_effect :
    (m m' : Retained) (retention : ℕ) (now : Time) (keys : List Text)
    → expire_output_artifacts m retention now ≡ ok (keys, m')
    → record m.queue { artifacts = m'.queue.artifacts } ≡ m'.queue
unfolding expire_output_artifacts
expire_output_artifacts_effect m m' retention now keys e = ground arith

pub expire_output_artifacts-Inv :
    {closed : List ℕ} {claims : List ClaimedJob} (m m' : Retained) (retention : ℕ) (now : Time)
    (keys : List Text)
    → Inv closed claims m.queue
    → expire_output_artifacts m retention now ≡ ok (keys, m')
    → Inv closed claims m'.queue
expire_output_artifacts-Inv {closed} {claims} m m' retention now keys v e =
    subst (Inv closed claims) (expire_output_artifacts_effect m m' retention now keys e) v
