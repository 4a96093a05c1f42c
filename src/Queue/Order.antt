-- ===== src/Queue/Order.antt =====
-- The two ORDER BYs of the queue order its rows.
use task_harbor.Base.{arith}
use task_harbor.Sql.Order.{IsRowOrder}
use task_harbor.Queue.Claim.{claimed_before}
use task_harbor.Queue.Reclaim.{expired_before}

pub claimed_before-IsRowOrder : IsRowOrder claimed_before
unfolding claimed_before
claimed_before-IsRowOrder = record {
  irreflexive = λ x. ground arith;
  asymmetric = λ x y h. ground arith;
  not_before_trans = λ x y z h k. ground arith;
}

pub expired_before-IsRowOrder : IsRowOrder expired_before
unfolding expired_before
expired_before-IsRowOrder = record {
  irreflexive = λ x. ground arith;
  asymmetric = λ x y h. ground arith;
  not_before_trans = λ x y z h k. ground arith;
}
