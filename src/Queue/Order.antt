-- ===== src/Queue/Order.antt =====
-- The order in which tasks are claimed: SQL's ORDER BY and the key of `peek_next`.
use automated_short_drama.Prelude.{zero, suc, ◌⊎◌, ◌≡◌, true, false, arith}
use automated_short_drama.Prelude.Int.{ℤ, pos, negsuc, int_leb, int_eq, int_neg}
use automated_short_drama.Queue.Item.{QueueItem}
use automated_short_drama.Queue.Repository.{is_ahead}
use automated_short_drama.Queue.Service.{key_leb}

neg_order :
    (a b : ℤ)
    → (int_leb (int_neg a) (int_neg b) ≡ int_leb b a)
      × (int_eq (int_neg a) (int_neg b) ≡ int_eq a b)
neg_order (pos zero) (pos zero) = ground arith
neg_order (pos zero) (pos (suc b)) = ground arith
neg_order (pos (suc a)) (pos zero) = ground arith
neg_order (pos (suc a)) (pos (suc b)) = ground arith
neg_order (pos zero) (negsuc b) = ground arith
neg_order (pos (suc a)) (negsuc b) = ground arith
neg_order (negsuc a) (pos zero) = ground arith
neg_order (negsuc a) (pos (suc b)) = ground arith
neg_order (negsuc a) (negsuc b) = ground arith

order_cases :
    (a b : ℤ)
    → (int_leb a b ≡ true) × (int_leb b a ≡ true) × (int_eq a b ≡ true)
      ⊎ (int_leb a b ≡ false) × (int_leb b a ≡ true) × (int_eq a b ≡ false)
      ⊎ (int_leb a b ≡ true) × (int_leb b a ≡ false) × (int_eq a b ≡ false)
order_cases (pos a) (pos b) = ground arith
order_cases (pos a) (negsuc b) = ground arith
order_cases (negsuc a) (pos b) = ground arith
order_cases (negsuc a) (negsuc b) = ground arith

-- The key by which `peek_next` sorts, with its priority negated, and the ORDER BY of the SQL claim are
-- one order.
pub key_leb-eq-is_ahead : (a b : QueueItem) → key_leb a b ≡ is_ahead a b
unfolding key_leb is_ahead
key_leb-eq-is_ahead a b =
    ground (arith, neg_order a.priority b.priority, order_cases a.priority b.priority)
