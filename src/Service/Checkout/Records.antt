-- ===== src/Service/Checkout/Records.antt =====
-- A checkout in the store, successful or not, keeps the shifts and every sale on record.
use kasirinaja.Prelude.{
  ℕ, zero, suc, String, none, some, List, [], ◌∷◌, ◌++◌, ◌≡◌, refl, ◌⊎◌, inl, inr, arith, Float64,
  Option-cases, Bool-cases, str_eq, eq_iff, ap, sym, subst, ◌∙◌, lookup, lookup-insert, get_elem?,
  length, foldl,
}
use kasirinaja.Domain.{Env, Transaction, TransactionLine, Time}
use kasirinaja.Store.{Result, ok, err, Error, Result-cases}
use kasirinaja.Memory.State.{Store}
use kasirinaja.Memory.Checkout.{
  find_by_idem, ensure_lots, save_transaction, sell_line, create_checkout, fresh_checkout, pay,
  priced,
}
use kasirinaja.Memory.Lots.{now_date_utc}
use kasirinaja.Memory.Checkout.Inversion.{checked, sold}
use kasirinaja.Memory.Checkout.Sale.{create_checkout-IsSale, paid_fields}
use kasirinaja.Service.Checkout.Steps.{IsSameBooks, create_checkout-shifts}

module _ {F : Type 0} where
  -- The shifts are the same, and what a key led to it still leads to.
  pub record IsKept (s s' : Store F) : Type 0 where
    pub shifts : s'.shifts_by_id ≡ s.shifts_by_id
    pub active : s'.active_shift_by_key ≡ s.active_shift_by_key
    pub known :
        (key : String) (tx : Transaction F)
        → find_by_idem key s ≡ some tx
        → find_by_idem key s' ≡ some tx

  pub IsKept-refl : (s : Store F) → IsKept s s
  IsKept-refl s = record { shifts = refl; active = refl; known = λ key tx h. h }

  pub IsKept-trans : {s t u : Store F} → IsKept s t → IsKept t u → IsKept s u
  IsKept-trans a b = record {
    shifts = b.shifts ∙ a.shifts;
    active = b.active ∙ a.active;
    known = λ key tx h. b.known key tx (a.known key tx h);
  }

  pub IsKept-of_same : {s s' : Store F} → IsSameBooks s s' → IsKept s s'
  unfolding find_by_idem
  IsKept-of_same h = record {
    shifts = h.shifts;
    active = h.active;
    known = λ key tx q. rw (h.heap, h.by_idem) q;
  }

  ensure_lots-IsSameBooks : (store : String) (s : Store F) → IsSameBooks s (ensure_lots store s)
  unfolding ensure_lots
  ensure_lots-IsSameBooks store s = ground arith

  get_elem?-append :
      (xs : List (Transaction F)) (y : Transaction F) (n : ℕ) {x : Transaction F}
      → get_elem? xs n ≡ some x
      → get_elem? (xs ++ (y ∷ [])) n ≡ some x
  get_elem?-append [] y n h = ground arith
  get_elem?-append (z ∷ zs) y zero h = h
  get_elem?-append (z ∷ zs) y (suc n) h = get_elem?-append zs y n h

  -- A new sale under a key that led to nothing leaves every other key alone.
  find-save_other :
      (paid : Transaction F) (s : Store F) (key : String) {tx : Transaction F}
      → find_by_idem paid.idempotency_key s ≡ none
      → find_by_idem key s ≡ some tx
      → find_by_idem key (save_transaction paid s) ≡ some tx
  unfolding find_by_idem save_transaction
  find-save_other paid s key {tx} new h = elim (Bool-cases (str_eq paid.idempotency_key key)) [
    | inl same ↦ ground (arith, eq_iff paid.idempotency_key key)
    | inr other ↦ elim (Option-cases (lookup key s.transactions_by_idem)) [
      | inl q ↦ ground arith
      | inr (p, q) ↦
          let there : get_elem? s.heap p ≡ some tx = ground arith in
          let still = get_elem?-append s.heap paid p there in
          let entry =
            lookup-insert key paid.idempotency_key (length s.heap) s.transactions_by_idem in
          ground arith
    ]
  ]

  books-sell_line :
      (today : Time) (store : String) (item : TransactionLine F) (s : Store F)
      → ((sell_line today store s item).heap ≡ s.heap)
        × ((sell_line today store s item).transactions_by_idem ≡ s.transactions_by_idem)
  unfolding sell_line
  books-sell_line today store item s = ground arith

  books-sell :
      (today : Time) (store : String) (items : List (TransactionLine F)) (s : Store F)
      → ((foldl (sell_line today store) s items).heap ≡ s.heap)
        × ((foldl (sell_line today store) s items).transactions_by_idem ≡ s.transactions_by_idem)
  books-sell today store [] s = (refl, refl)
  books-sell today store (item ∷ items) s =
      let (a, b) = books-sell today store items (sell_line today store s item) in
      let (c, d) = books-sell_line today store item s in (a ∙ c, b ∙ d)

  find_by_idem-moves :
      (key : String) (s s' : Store F)
      → s'.heap ≡ s.heap
      → s'.transactions_by_idem ≡ s.transactions_by_idem
      → find_by_idem key s' ≡ find_by_idem key s
  unfolding find_by_idem
  find_by_idem-moves key s s' a b = rw (a, b)

module _ {F : Type 0} ⦃fl : Float64 F⦄ where
  sold-find :
      (env : Env) (tx : Transaction F) (s : Store F) (items : List (TransactionLine F))
      (key : String)
      → find_by_idem key (sold env tx s items) ≡ find_by_idem key s
  sold-find env tx s items key =
      let start = ensure_lots tx.store_id s in
      let (a, b) = books-sell (now_date_utc (env.now 0)) tx.store_id items start in
      let lots = ensure_lots-IsSameBooks tx.store_id s in
      find_by_idem-moves key s (sold env tx s items) (a ∙ lots.heap) (b ∙ lots.by_idem)

  fresh_checkout-failed :
      (env : Env) (tx : Transaction F) (s : Store F) {e : Error} {s' : Store F}
      → fresh_checkout env tx s ≡ (err e, s')
      → (s' ≡ s) ⊎ (s' ≡ ensure_lots tx.store_id s)
  unfolding fresh_checkout
  fresh_checkout-failed env tx s {e} {s'} h = elim (Result-cases (checked env tx s)) [
    | inr (e', q) ↦ ground arith
    | inl ((items, subtotal), q) ↦ elim (Result-cases (pay (priced env tx items subtotal))) [
      | inr (e', q') ↦ ground arith
      | inl (paid, q') ↦ ground arith
    ]
  ]

  create_checkout-failed :
      (env : Env) (tx : Transaction F) (s : Store F) {e : Error} {s' : Store F}
      → create_checkout env tx s ≡ (err e, s')
      → (s' ≡ s) ⊎ (s' ≡ ensure_lots tx.store_id s)
  unfolding create_checkout
  create_checkout-failed env tx s {e} {s'} h =
      elim (Option-cases (find_by_idem tx.idempotency_key s)) [
        | inr (known, q) ↦ ground arith
        | inl q ↦ elim (Bool-cases (str_eq tx.idempotency_key "")) [
          | inl empty ↦ ground arith
          | inr given ↦
              let fresh : fresh_checkout env tx s ≡ (err e, s') = ground arith in
              fresh_checkout-failed env tx s fresh
        ]
      ]

  create_checkout-known :
      (env : Env) (tx : Transaction F) (s : Store F) {paid known : Transaction F} {s' : Store F}
      → create_checkout env tx s ≡ (ok paid, s')
      → find_by_idem tx.idempotency_key s ≡ some known
      → s' ≡ s
  unfolding create_checkout
  create_checkout-known env tx s h q = ground arith

  pub create_checkout-IsKept :
      (env : Env) (tx : Transaction F) (s : Store F) (r : Result (Transaction F)) {s' : Store F}
      → create_checkout env tx s ≡ (r, s')
      → IsKept s s'
  create_checkout-IsKept env tx s (err e) h = elim (create_checkout-failed env tx s h) [
    | inl same ↦ subst (IsKept s) (sym same) (IsKept-refl s)
    | inr lots ↦
        subst (IsKept s) (sym lots) (IsKept-of_same (ensure_lots-IsSameBooks tx.store_id s))
  ]
  create_checkout-IsKept env tx s (ok paid) {s'} h =
      elim (Option-cases (find_by_idem tx.idempotency_key s)) [
        | inr (known, q) ↦
            subst (IsKept s) (sym (create_checkout-known env tx s h q)) (IsKept-refl s)
        | inl new ↦
            let (shifts, active, _) = create_checkout-shifts env tx s h new in
            let sale = create_checkout-IsSale env tx s h new in
            let own = (paid_fields env tx paid sale.items sale.subtotal sale.pays).2 in
            let lines = sold env tx s paid.items in
            let unknown : find_by_idem paid.idempotency_key lines ≡ none =
              sold-find env tx s paid.items paid.idempotency_key
              ∙ ap (λ k. find_by_idem k s) own
              ∙ new in
            record {
              shifts = shifts;
              active = active;
              known = λ key known q.
                  ap (find_by_idem key) sale.after
                  ∙ find-save_other paid lines key unknown (sold-find env tx s paid.items key ∙ q);
            }
      ]
