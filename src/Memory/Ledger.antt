-- ===== src/Memory/Ledger.antt =====
-- What the store promises of its stock, as a ledger: a count of units for every store and article
-- that checkouts take from, voids give back to, and refused or repeated calls leave alone.
pub mod Kept
pub mod Refines
use kasirinaja.Prelude.{
  ℕ, ◌+◌, ◌-◌, ◌≤◌, ◌<◌, ◌^◌, ◌≡◌, ℤ, pos, pos_part, Fits, String, Option, none, some, List, [],
  ◌∷◌, str_eq, map, All, Float64, if◌then◌else◌,
}
use kasirinaja.Domain.{Time, Env, TransactionLine, Transaction, Refund}
use kasirinaja.Store.{Error, Result, ok, err}
use kasirinaja.Memory.State.{Store, stock_of}
use kasirinaja.Memory.Lots.Fefo.{IsCount}
use kasirinaja.Memory.Checkout.{find_by_id, find_by_idem, create_checkout}
use kasirinaja.Memory.Checkout.Lines.{order_of}
use kasirinaja.Memory.Checkout.Stock.{demand, Distinct}
use kasirinaja.Memory.Sales.{void_transaction}
use kasirinaja.Memory.Refunds.{create_refund}

-- The units of an article in a store.
abbrev pub Ledger : Type 0
Ledger = String → String → ℕ

pub data Change : Type 0 where
  take give : String → List (String × ℤ) → Change
  keep : Change

abbrev pub apply : Change → Ledger → Ledger
apply (take store orders) l store' sku =
    if str_eq store store' then l store' sku - demand sku orders else l store' sku
apply (give store orders) l store' sku =
    if str_eq store store' then l store' sku + demand sku orders else l store' sku
apply keep l store' sku = l store' sku

abbrev pub replay : List Change → Ledger → Ledger
replay [] l = l
replay (c ∷ cs) l = replay cs (apply c l)

-- The ledger holds what a change takes, and what it gives stays below the range of `int64`.
abbrev pub Allows : Ledger → Change → Type 0
Allows l (take store orders) = (sku : String) → demand sku orders ≤ l store sku
Allows l (give store orders) = (sku : String) → l store sku + demand sku orders < 2 ^ 63
Allows l keep = Unit

abbrev pub AllowsEach : Ledger → List Change → Type 0
AllowsEach l [] = Unit
AllowsEach l (c ∷ cs) = Allows l c × AllowsEach (apply c l) cs

module _ {F : Type 0} where
  -- The state holds what the ledger says, in the range of `int64`.
  pub record Holds (s : Store F) (l : Ledger) : Type 0 where
    pub stock : (store sku : String) → stock_of store sku s ≡ pos (l store sku)
    pub range : (store sku : String) → l store sku < 2 ^ 63

-- A call of the store that went as it says, with what it means for the ledger.
pub data Step {F : Type 0} ⦃fl : Float64 F⦄ (s : Store F) (s' : Store F) : Change → Type 0 where
  checkout :
      (env : Env) (tx paid : Transaction F)
      → create_checkout env tx s ≡ (ok paid, s')
      → find_by_idem tx.idempotency_key s ≡ none
      → (c : Change) → c ≡ take tx.store_id (map order_of tx.items)
      → Step s s' c
  repeated :
      (env : Env) (tx paid existing : Transaction F)
      → create_checkout env tx s ≡ (ok paid, s')
      → find_by_idem tx.idempotency_key s ≡ some existing
      → (c : Change) → c ≡ keep
      → Step s s' c
  refused_checkout :
      (env : Env) (tx : Transaction F) (e : Error)
      → create_checkout env tx s ≡ (err e, s')
      → (c : Change) → c ≡ keep
      → Step s s' c
  void :
      (env : Env) (id reason : String) (at : Time) (tx gone : Transaction F)
      → void_transaction env id reason at s ≡ (ok gone, s')
      → find_by_id id s ≡ some tx
      → (c : Change) → c ≡ give tx.store_id (map order_of tx.items)
      → Step s s' c
  refused_void :
      (env : Env) (id reason : String) (at : Time) (e : Error)
      → void_transaction env id reason at s ≡ (err e, s')
      → (c : Change) → c ≡ keep
      → Step s s' c
  refund :
      (env : Env) (request : Refund) (r : Result Refund)
      → create_refund env request s ≡ (r, s')
      → (c : Change) → c ≡ keep
      → Step s s' c

-- What is asked of a call: a checkout that goes through orders each article once, in quantities that
-- are Go integers, and a void is of a transaction that sold counts of units, which the stock has
-- room for. Nothing is asked of the other calls.
abbrev pub IsFair :
    {F : Type 0} ⦃fl : Float64 F⦄ (s s' : Store F) {c : Change} → Step s s' c → Type 0
IsFair s s' (checkout env tx paid h new c e) =
    Distinct (map order_of tx.items) × All (λ order. Fits order.1) (map order_of tx.items)
IsFair s s' (repeated env tx paid existing h known c e) = Unit
IsFair s s' (refused_checkout env tx x h c e) = Unit
IsFair s s' (void env id reason at tx gone h found c e) =
    All (λ line. IsCount line.qty) tx.items
    × ((sku : String)
        → pos_part (stock_of tx.store_id sku s) + demand sku (map order_of tx.items) < 2 ^ 63)
IsFair s s' (refused_void env id reason at x h c e) = Unit
IsFair s s' (refund env request r h c e) = Unit

pub data Run {F : Type 0} ⦃fl : Float64 F⦄ : Store F → Store F → List Change → Type 0 where
  done : (s : Store F) → Run s s []
  next :
      (s s' s'' : Store F) (c : Change) (cs : List Change)
      → Step s s' c
      → Run s' s'' cs
      → Run s s'' (c ∷ cs)

abbrev pub IsFairEach :
    {F : Type 0} ⦃fl : Float64 F⦄ {s s' : Store F} {cs : List Change} → Run s s' cs → Type 0
IsFairEach (done s) = Unit
IsFairEach (next s t s' c cs step run) = IsFair s t step × IsFairEach run
