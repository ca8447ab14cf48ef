-- ===== src/Memory/Lots.antt =====
-- Inventory lots: the first-expired-first-out order, and how a checkout draws on the lots.
pub mod Fefo
pub mod Order
use kasirinaja.Prelude.{
  ◌-◌, ◌%◌, ℤ, pos, Bool, true, false, Option, none, some, List, [], ◌∷◌, ltb, ltb_ℤ, eqb_ℤ, add64,
  sub64, if◌then◌else◌, str_lt, sort_by,
}
use kasirinaja.Domain.{Time, day, InventoryLot}

-- `nowDateUTC`: the days of UTC begin at the multiples of a day after the zero time
unfoldable pub now_date_utc : Time → Time
now_date_utc t = t - t % day

-- `lot.ExpiryDate != nil && lot.ExpiryDate.Before(today)`
unfoldable pub is_expired : Time → InventoryLot → Bool
is_expired today lot = elim lot.expiry_date [ none ↦ false | some e ↦ ltb e today ]

-- `compareLotForFEFO(a, b) < 0` below the expiry dates
abbrev pub received_before : InventoryLot → InventoryLot → Bool
received_before a b =
    if ltb a.received_at b.received_at
    then true
    else (if ltb b.received_at a.received_at then false else str_lt a.id b.id)

abbrev pub expires_before : Option Time → Option Time → Bool → Bool
expires_before none none rest = rest
expires_before none (some _) rest = false
expires_before (some _) none rest = true
expires_before (some a) (some b) rest = if ltb a b then true else (if ltb b a then false else rest)

-- `compareLotForFEFO(a, b) < 0`
unfoldable pub lot_before : InventoryLot → InventoryLot → Bool
lot_before a b = expires_before a.expiry_date b.expiry_date (received_before a b)

unfoldable pub sort_lots : List InventoryLot → List InventoryLot
sort_lots = sort_by lot_before

-- The sum that `CreateCheckout` compares with the ordered quantity.
unfoldable pub available_by_lot : Time → ℤ → List InventoryLot → ℤ
available_by_lot today sum [] = sum
available_by_lot today sum (lot ∷ lots) =
    available_by_lot today (if is_expired today lot then sum else add64 sum lot.qty_available) lots

-- The loop that takes `remaining` units off the sorted lots.
unfoldable pub consume : Time → ℤ → List InventoryLot → List InventoryLot
consume today remaining [] = []
consume today remaining (lot ∷ lots) =
    let available = lot.qty_available in
    let used = if ltb_ℤ available remaining then available else remaining in
    let skip = lot ∷ consume today remaining lots in
    let take_some =
      record lot { qty_available = sub64 available used }
      ∷ consume today (sub64 remaining used) lots in
    if eqb_ℤ remaining (pos 0)
    then lot ∷ lots
    else (if ltb_ℤ available (pos 1)
        then skip
        else (if is_expired today lot then skip else take_some))
