-- ===== src/Memory/Refunds/Limit.antt =====
-- Refunds never exceed what was paid.
use kasirinaja.Prelude.{
  ℕ, ◌+◌, ◌≤◌, ◌<◌, ◌^◌, ℤ, pos, ◌≡◌, ◌∙◌, ap, false, ◌&&◌, ◌||◌, String, none, some, List, [], ◌∷◌,
  ◌++◌, lookup, insert, values, values-insert_new, str_eq, eq_iff, ◌==◌, add64, sub64, add64_pos,
  sub64_pos, ltb_ℤ, leb_ℤ, arith, if◌then◌else◌, Bool-cases, inl, inr, ◌⊎◌,
}
use kasirinaja.Domain.{Env, Transaction, Refund, tx_status_voided, tx_status_refunded}
use kasirinaja.Store.{ok, err, invalid_transaction}
use kasirinaja.Memory.State.{Store}
use kasirinaja.Memory.Checkout.{find_by_id}
use kasirinaja.Memory.Sales.{write_transaction}
use kasirinaja.Memory.Sales.Pointers.{find_by_id-write_transaction}
use kasirinaja.Memory.Refunds.{refunded_so_far, complete_refund, create_refund}

refunded_so_far-append :
    (id : String) (sum : ℤ) (xs : List Refund) (r : Refund)
    → refunded_so_far id sum (xs ++ (r ∷ [])) ≡ (
        if str_eq r.original_transaction_id id && str_eq r.status tx_status_refunded
        then add64 (refunded_so_far id sum xs) r.amount_cents
        else refunded_so_far id sum xs)
unfolding refunded_so_far
refunded_so_far-append id sum [] r = ground arith
refunded_so_far-append id sum (x ∷ xs) r =
    refunded_so_far-append id
      (if str_eq x.original_transaction_id id && str_eq x.status tx_status_refunded
        then add64 sum x.amount_cents
        else sum)
      xs r

within :
    (t r z : ℤ) (paid before amount : ℕ)
    → t ≡ pos paid
    → r ≡ pos before
    → z ≡ pos amount
    → paid < 2 ^ 63
    → before ≤ paid
    → ltb_ℤ (sub64 t r) z ≡ false
    → before + amount ≤ paid
within t r z paid before amount et er ez hp le h = ground (arith, sub64_pos paid before)

reaches :
    (t r z : ℤ) (paid before amount : ℕ)
    → t ≡ pos paid
    → r ≡ pos before
    → z ≡ pos amount
    → paid < 2 ^ 63
    → before + amount ≤ paid
    → leb_ℤ t (add64 r z) ≡ (before + amount == paid)
reaches t r z paid before amount et er ez hp le = ground (arith, add64_pos before amount)

module _ {F : Type 0} where
  -- the cents refunded for a transaction in a state
  unfoldable pub refunded : String → Store F → ℤ
  refunded id s = refunded_so_far id (pos 0) (values s.refunds_by_id)

  pub create_refund-ok :
      (env : Env) (request : Refund) (s : Store F) {tx : Transaction F} {made : Refund}
      {s' : Store F}
      → create_refund env request s ≡ (ok made, s')
      → find_by_id request.original_transaction_id s ≡ some tx
      → (made ≡ complete_refund env request)
        × (str_eq tx.status tx_status_voided || str_eq tx.status tx_status_refunded ≡ false)
        × (ltb_ℤ
              (sub64 tx.total_cents (refunded request.original_transaction_id s))
              made.amount_cents
            ≡ false)
        × (s'.refunds_by_id ≡ insert made.id made s.refunds_by_id)
        × (find_by_id request.original_transaction_id s'
            ≡ find_by_id request.original_transaction_id (
                if leb_ℤ tx.total_cents
                  (add64 (refunded request.original_transaction_id s) made.amount_cents)
                then write_transaction request.original_transaction_id
                    (record tx { status = tx_status_refunded })
                    s
                else s))
  unfolding create_refund complete_refund refunded find_by_id write_transaction
  create_refund-ok env request s {tx} h found = ground arith

  -- the sum of the refunds after one more
  sum_after :
      (id : String) (s s' : Store F) (made : Refund) (before amount : ℕ)
      → made.original_transaction_id ≡ id
      → lookup made.id s.refunds_by_id ≡ none
      → made.status ≡ tx_status_refunded
      → s'.refunds_by_id ≡ insert made.id made s.refunds_by_id
      → refunded id s ≡ pos before
      → made.amount_cents ≡ pos amount
      → before + amount < 2 ^ 63
      → refunded id s' ≡ pos (before + amount)
  unfolding refunded
  sum_after id s s' made before amount own new counts inserted r a h =
      let listed = ap values inserted ∙ values-insert_new made.id made s.refunds_by_id new in
      ap (refunded_so_far id (pos 0)) listed
      ∙ refunded_so_far-append id (pos 0) (values s.refunds_by_id) made
      ∙ ground (
        arith,
        eq_iff made.original_transaction_id id,
        eq_iff made.status tx_status_refunded,
        add64_pos before amount,
      )

  -- A successful refund keeps the sum of the refunds of its transaction within the total that was
  -- paid and adds its amount to that sum; the transaction becomes refunded exactly when the sum
  -- reaches the total, and is otherwise as before. The refund has an identifier of its own and
  -- counts as refunded, and the amounts are Go integers, none negative.
  pub create_refund_limit :
      (env : Env) (request : Refund) (s : Store F) {tx : Transaction F} {made : Refund}
      {s' : Store F} (paid before amount : ℕ)
      → create_refund env request s ≡ (ok made, s')
      → find_by_id request.original_transaction_id s ≡ some tx
      → lookup made.id s.refunds_by_id ≡ none
      → made.status ≡ tx_status_refunded
      → tx.total_cents ≡ pos paid
      → refunded request.original_transaction_id s ≡ pos before
      → made.amount_cents ≡ pos amount
      → paid < 2 ^ 63
      → amount < 2 ^ 63
      → before ≤ paid
      → (before + amount ≤ paid)
        × (refunded request.original_transaction_id s' ≡ pos (before + amount))
        × (find_by_id request.original_transaction_id s'
            ≡ some
                (if before + amount == paid then record tx { status = tx_status_refunded } else tx))
  unfolding complete_refund
  create_refund_limit env request s {tx} {made} {s'} paid before amount h found new counts e r a hp
        ha le =
      let id = request.original_transaction_id in
      let (em, _, over, inserted, there) = create_refund-ok env request s h found in
      let own : made.original_transaction_id ≡ id = ap (λ x. x.original_transaction_id) em in
      let fits : before + amount ≤ paid =
        within tx.total_cents (refunded id s) made.amount_cents paid before amount e r a hp le
          over in
      let reached =
        reaches tx.total_cents (refunded id s) made.amount_cents paid before amount e r a hp fits in
      let written =
        find_by_id-write_transaction id s (record tx { status = tx_status_refunded }) found in
      let status : find_by_id id s'
          ≡ some
              (if before + amount == paid then record tx { status = tx_status_refunded } else tx) =
        elim (Bool-cases (before + amount == paid)) [
          | inl full ↦ rw (there, reached, full) written
          | inr part ↦ rw (there, reached, part) found
        ] in
      (fits, sum_after id s s' made before amount own new counts inserted r a (omega arith), status)

  -- A refund of a voided or fully refunded transaction, or of more than is left of what was paid,
  -- is refused and changes nothing; the amounts are Go integers, none negative.
  pub create_refund_refused :
      (env : Env) (request : Refund) (s : Store F) {tx : Transaction F} (paid before amount : ℕ)
      → find_by_id request.original_transaction_id s ≡ some tx
      → tx.total_cents ≡ pos paid
      → refunded request.original_transaction_id s ≡ pos before
      → request.amount_cents ≡ pos amount
      → paid < 2 ^ 63
      → before ≤ paid
      → (tx.status ≡ tx_status_voided) ⊎ (tx.status ≡ tx_status_refunded) ⊎ (paid < before + amount)
      → create_refund env request s ≡ (err invalid_transaction, s)
  unfolding create_refund complete_refund refunded
  create_refund_refused env request s {tx} paid before amount found e r a hp le (inl was) =
      ground (arith, eq_iff tx.status tx_status_voided)
  create_refund_refused env request s {tx} paid before amount found e r a hp le (inr (inl was)) =
      ground (arith, eq_iff tx.status tx_status_refunded)
  create_refund_refused env request s {tx} paid before amount found e r a hp le (inr (inr over)) =
      ground (arith, sub64_pos paid before)
