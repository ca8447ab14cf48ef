-- ===== src/Memory/Sales/Pointers.antt =====
-- The two maps that point to the transactions.
use kasirinaja.Prelude.{
  ◌≡◌, String, some, lookup, get_elem?-set_self, arith, Option-cases, inl, inr,
}
use kasirinaja.Domain.{Transaction}
use kasirinaja.Memory.State.{Store}
use kasirinaja.Memory.Checkout.{find_by_id, find_by_idem}
use kasirinaja.Memory.Sales.{write_transaction}

module _ {F : Type 0} where
  pub find_by_id-write_transaction :
      (id : String) (s : Store F) {tx : Transaction F} (new : Transaction F)
      → find_by_id id s ≡ some tx
      → find_by_id id (write_transaction id new s) ≡ some new
  unfolding find_by_id write_transaction
  find_by_id-write_transaction id s {tx} new h =
      elim (Option-cases (lookup id s.transactions_by_id)) [
        | inl e ↦ ground arith
        | inr (p, e) ↦ ground (arith, get_elem?-set_self s.heap p tx new)
      ]

  -- A write through the pointer is seen through the other map too, where both hold it.
  pub find-write_transaction :
      (id key : String) (s : Store F) {tx : Transaction F} (new : Transaction F)
      → find_by_id id s ≡ some tx
      → lookup key s.transactions_by_idem ≡ lookup id s.transactions_by_id
      → (find_by_id id (write_transaction id new s) ≡ some new)
        × (find_by_idem key (write_transaction id new s) ≡ some new)
        × (lookup key (write_transaction id new s).transactions_by_idem
            ≡ lookup id (write_transaction id new s).transactions_by_id)
  unfolding find_by_id find_by_idem write_transaction
  find-write_transaction id key s {tx} new h same =
      elim (Option-cases (lookup id s.transactions_by_id)) [
        | inl e ↦ ground arith
        | inr (p, e) ↦ ground (arith, get_elem?-set_self s.heap p tx new)
      ]
