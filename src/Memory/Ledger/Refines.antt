-- ===== src/Memory/Ledger/Refines.antt =====
-- The store keeps its ledger.
use kasirinaja.Prelude.{
  ℕ, ◌+◌, ◌-◌, ◌≤◌, ◌<◌, ◌^◌, ◌≡◌, ◌≢◌, refl, sym, ◌∙◌, ap, subst, ℤ, pos, pos_part, Fits, String,
  none, some, List, false, str_eq, eq_iff, eq_refl, map, All, Float64, Bool-cases, inl, inr, arith,
}
use kasirinaja.Domain.{Time, Env, Transaction, Refund}
use kasirinaja.Store.{Result, ok}
use kasirinaja.Memory.State.{Store, stock_of}
use kasirinaja.Memory.Lots.Fefo.{IsCount}
use kasirinaja.Memory.Checkout.{find_by_id, find_by_idem, create_checkout}
use kasirinaja.Memory.Checkout.Lines.{order_of}
use kasirinaja.Memory.Checkout.Stock.{demand, Distinct, create_checkout_stock}
use kasirinaja.Memory.Sales.{void_transaction}
use kasirinaja.Memory.Sales.Void.{void_transaction_stock}
use kasirinaja.Memory.Ledger.{
  Ledger, Change, take, give, keep, apply, replay, Allows, AllowsEach, Holds, Step, checkout,
  repeated, refused_checkout, void, refused_void, refund, Run, IsFair, IsFairEach, done, next,
}
use kasirinaja.Memory.Ledger.Kept.{
  refused_checkout-stock, repeated-same, refused_void-same, create_refund_stock,
}

IsCount-pos : (z : ℤ) (n : ℕ) → z ≡ pos n → n < 2 ^ 63 → IsCount z
IsCount-pos z n e h = subst IsCount (sym e) (omega arith)

apply_other :
    (l : Ledger) (store : String) (orders : List (String × ℤ)) (other sku : String)
    → other ≢ store
    → (apply (take store orders) l other sku ≡ l other sku)
      × (apply (give store orders) l other sku ≡ l other sku)
apply_other l store orders other sku h =
    let apart : str_eq store other ≡ false = ground (arith, eq_iff store other) in
    (rw apart refl, rw apart refl)

module _ {F : Type 0} where
  -- what a state holds of one article in one store
  abbrev Cell : Store F → Ledger → String → String → Type 0
  Cell s l store sku = (stock_of store sku s ≡ pos (l store sku)) × (l store sku < 2 ^ 63)

  -- The stock of one store is as the new ledger says, and the other stores keep theirs.
  Holds-change :
      (s s' : Store F) (l l' : Ledger) (store : String)
      → Holds s l
      → ((sku : String) → Cell s' l' store sku)
      → ((other sku : String) → other ≢ store → stock_of other sku s' ≡ stock_of other sku s)
      → ((other sku : String) → other ≢ store → l' other sku ≡ l other sku)
      → Holds s' l'
  Holds-change s s' l l' store held here there kept =
      let cell = λ (other sku : String).
        let c : Cell s' l' other sku = elim (Bool-cases (str_eq other store)) [
          | inl same ↦ subst (λ x. Cell s' l' x sku) (sym ((eq_iff other store).0 same)) (here sku)
          | inr apart ↦
              let ne : other ≢ store = ground (arith, eq_iff other store) in
              (
                there other sku ne ∙ held.stock other sku ∙ ap pos (sym (kept other sku ne)),
                subst (λ n. n < 2 ^ 63) (sym (kept other sku ne)) (held.range other sku),
              )
        ] in
        c in
      record { stock = λ other sku. (cell other sku).0; range = λ other sku. (cell other sku).1 }

  Holds-same :
      (s s' : Store F) (l : Ledger)
      → Holds s l
      → ((store sku : String) → stock_of store sku s' ≡ stock_of store sku s)
      → Holds s' (apply keep l)
  Holds-same s s' l held same = record {
    stock = λ store sku. same store sku ∙ held.stock store sku;
    range = held.range;
  }

module _ {F : Type 0} ⦃fl : Float64 F⦄ where
  step_take :
      (s s' : Store F) (l : Ledger) (env : Env) (tx paid : Transaction F)
      → create_checkout env tx s ≡ (ok paid, s')
      → find_by_idem tx.idempotency_key s ≡ none
      → Distinct (map order_of tx.items)
      → All (λ order. Fits order.1) (map order_of tx.items)
      → Holds s l
      → let c = take tx.store_id (map order_of tx.items) in Allows l c × Holds s' (apply c l)
  step_take s s' l env tx paid h new distinct fits held =
      let orders = map order_of tx.items in
      let store = tx.store_id in
      let sold = create_checkout_stock env tx s h new distinct fits (λ sku.
        IsCount-pos (stock_of store sku s) (l store sku) (held.stock store sku)
          (held.range store sku)) in
      let count = λ (sku : String). ap pos_part (held.stock store sku) in
      (
        (λ sku. subst (λ n. demand sku orders ≤ n) (count sku) (sold sku).0),
        Holds-change s s' l (apply (take store orders) l) store held
            (λ sku. (
              (sold sku).1
                  ∙ ap (λ n. pos (n - demand sku orders)) (count sku)
                  ∙ rw (eq_refl store) refl,
              rw (eq_refl store) (omega (arith, held.range store sku)),
            ))
            (λ other sku ne. (sold sku).2 other ne)
            (λ other sku ne. (apply_other l store orders other sku ne).0),
      )

  step_give :
      (s s' : Store F) (l : Ledger) (env : Env) (id reason : String) (at : Time)
      (tx gone : Transaction F)
      → void_transaction env id reason at s ≡ (ok gone, s')
      → find_by_id id s ≡ some tx
      → All (λ line. IsCount line.qty) tx.items
      → ((sku : String)
          → pos_part (stock_of tx.store_id sku s) + demand sku (map order_of tx.items) < 2 ^ 63)
      → Holds s l
      → let c = give tx.store_id (map order_of tx.items) in Allows l c × Holds s' (apply c l)
  step_give s s' l env id reason at tx gone h found counts room held =
      let orders = map order_of tx.items in
      let store = tx.store_id in
      let back = λ (sku : String).
        void_transaction_stock env id reason at s h found counts sku
          (IsCount-pos (stock_of store sku s) (l store sku) (held.stock store sku)
            (held.range store sku))
          (room sku) in
      let count = λ (sku : String). ap pos_part (held.stock store sku) in
      let fits =
        λ (sku : String). subst (λ n. n + demand sku orders < 2 ^ 63) (count sku) (room sku) in
      (
        fits,
        Holds-change s s' l (apply (give store orders) l) store held
            (λ sku. (
              (back sku).0
                  ∙ ap (λ n. pos (n + demand sku orders)) (count sku)
                  ∙ rw (eq_refl store) refl,
              rw (eq_refl store) (fits sku),
            ))
            (λ other sku ne. (back sku).1 other ne)
            (λ other sku ne. (apply_other l store orders other sku ne).1),
      )

  -- One call changes the stock as its change does the ledger, which allows it.
  step_refines :
      (s s' : Store F) (l : Ledger) {c : Change}
      → (step : Step s s' c) → IsFair s s' step
      → Holds s l
      → Allows l c × Holds s' (apply c l)
  step_refines s s' l (checkout env tx paid h new c e) (distinct, fits) held =
      subst (λ c. Allows l c × Holds s' (apply c l)) (sym e)
        (step_take s s' l env tx paid h new distinct fits held)
  step_refines s s' l (repeated env tx paid existing h known c e) fair held =
      subst (λ c. Allows l c × Holds s' (apply c l)) (sym e)
        (
          tt,
          Holds-same s s' l held
              (λ store sku. ap (stock_of store sku) (repeated-same env tx s h known)),
        )
  step_refines s s' l (refused_checkout env tx x h c e) fair held =
      subst (λ c. Allows l c × Holds s' (apply c l)) (sym e)
        (tt, Holds-same s s' l held (refused_checkout-stock env tx s h))
  step_refines s s' l (void env id reason at tx gone h found c e) (counts, room) held =
      subst (λ c. Allows l c × Holds s' (apply c l)) (sym e)
        (step_give s s' l env id reason at tx gone h found counts room held)
  step_refines s s' l (refused_void env id reason at x h c e) fair held =
      subst (λ c. Allows l c × Holds s' (apply c l)) (sym e)
        (
          tt,
          Holds-same s s' l held
              (λ store sku. ap (stock_of store sku) (refused_void-same env id reason at s h)),
        )
  step_refines s s' l (refund env request r h c e) fair held =
      subst (λ c. Allows l c × Holds s' (apply c l)) (sym e)
        (
          tt,
          Holds-same s s' l held (λ store sku.
              ap (λ (out : Result Refund × Store F). stock_of store sku out.1) (sym h)
              ∙ create_refund_stock env request s store sku),
        )

  -- Over a run of checkouts, voids and refunds, of which some are repeated or refused, the stock of
  -- every article in every store is what the ledger says that replays the checkouts and voids that
  -- took place: each checkout takes what the ledger holds, and nothing else changes a count. It
  -- supposes that the ledger and the stock agree at the start, that each checkout that goes through
  -- orders each article on one line, in quantities that are Go integers, and that each void that
  -- goes through is of a sale of counts of units for which the stock has room in a Go integer.
  pub Run-refines :
      {s s' : Store F} {cs : List Change} (l : Ledger)
      → (run : Run s s' cs) → IsFairEach run
      → Holds s l
      → AllowsEach l cs × Holds s' (replay cs l)
  Run-refines l (done s) fair held = (tt, held)
  Run-refines l (next s t s' c cs step run) (fair, rest) held =
      let (allowed, held') = step_refines s t l step fair held in
      let (each, final) = Run-refines (apply c l) run rest held' in ((allowed, each), final)
