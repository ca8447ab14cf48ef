-- ===== src/Memory/Lots/Fefo.antt =====
-- What the lots that can be sold hold, and that a checkout takes it in their order.
use kasirinaja.Prelude.{
  ℕ, ◌+◌, ◌-◌, ◌<◌, ◌^◌, ◌≡◌, refl, ap, ◌∙◌, ℤ, pos, negsuc, pos_part, List, [], ◌∷◌, All, arith,
  add64_pos, sub64_pos, sub64, ltb_ℤ, if◌then◌else◌, insert_by, All-sort_by,
}
use kasirinaja.Domain.{Time, InventoryLot}
use kasirinaja.Memory.Lots.{is_expired, available_by_lot, consume, lot_before, sort_lots}

-- a number of units: not negative, and an `int`
abbrev pub IsCount : ℤ → Type 0
IsCount (pos n) = n < 2 ^ 63
IsCount (negsuc _) = ⊥

abbrev pub Counted : List InventoryLot → Type 0
Counted = All λ lot. IsCount lot.qty_available

pub Count-cases : (z : ℤ) → IsCount z → (n : ℕ) × (z ≡ pos n) × (n < 2 ^ 63)
Count-cases (pos n) h = (n, refl, h)
Count-cases (negsuc n) h = absurd h

-- the units of a lot that can be sold
abbrev pub sellable : Time → InventoryLot → ℕ
sellable today lot = if is_expired today lot then 0 else pos_part lot.qty_available

unfoldable pub sellable_sum : Time → List InventoryLot → ℕ
sellable_sum today [] = 0
sellable_sum today (lot ∷ lots) = sellable today lot + sellable_sum today lots

-- one lot after `r` units were wanted from the sellable ones
abbrev pub drawn : Time → ℕ → InventoryLot → InventoryLot
drawn today r lot =
    if is_expired today lot
    then lot
    else record lot { qty_available = pos (pos_part lot.qty_available - r) }

-- The same in plain numbers: each lot gives what the lots before it could not.
unfoldable pub draw : Time → ℕ → List InventoryLot → List InventoryLot
draw today r [] = []
draw today r (lot ∷ lots) = drawn today r lot ∷ draw today (r - sellable today lot) lots

drawn_zero :
    (today : Time) (lot : InventoryLot) → IsCount lot.qty_available → drawn today 0 lot ≡ lot
drawn_zero today lot h = ground arith

draw_zero : (today : Time) (lots : List InventoryLot) → Counted lots → draw today 0 lots ≡ lots
unfolding draw
draw_zero today [] h = refl
draw_zero today (lot ∷ lots) h = ground (arith, draw_zero today lots, drawn_zero today lot)

take_lem :
    (q r : ℕ)
    → q < 2 ^ 63
    → r < 2 ^ 63
    → let used = if ltb_ℤ (pos q) (pos r) then pos q else pos r in
      (sub64 (pos q) used ≡ pos (q - r)) × (sub64 (pos r) used ≡ pos (r - q))
take_lem q r h k = ground (arith, sub64_pos q q, sub64_pos q r, sub64_pos r q, sub64_pos r r)

pub consume-eq-draw :
    (today : Time) (r : ℕ) (lots : List InventoryLot)
    → r < 2 ^ 63
    → Counted lots
    → consume today (pos r) lots ≡ draw today r lots
unfolding consume draw
consume-eq-draw today r [] hr h = refl
consume-eq-draw today r (lot ∷ lots) hr h =
    let (q, e, hq) = Count-cases lot.qty_available h.0 in
    ground (
      arith,
      drawn_zero today lot,
      draw_zero today lots,
      take_lem q r,
      consume-eq-draw today r lots,
      consume-eq-draw today (r - q) lots,
    )

sellable_sum-draw :
    (today : Time) (r : ℕ) (lots : List InventoryLot)
    → sellable_sum today (draw today r lots) ≡ sellable_sum today lots - r
unfolding draw sellable_sum is_expired
sellable_sum-draw today r [] = omega arith
sellable_sum-draw today r (lot ∷ lots) =
    ground (arith, sellable_sum-draw today (r - sellable today lot) lots)

pub draw-Counted :
    (today : Time) (r : ℕ) (lots : List InventoryLot) → Counted lots → Counted (draw today r lots)
unfolding draw
draw-Counted today r [] h = tt
draw-Counted today r (lot ∷ lots) h =
    let (q, e, hq) = Count-cases lot.qty_available h.0 in
    ground (arith, draw-Counted today (r - sellable today lot) lots)

sellable_sum-insert_by :
    (today : Time) (x : InventoryLot) (ys : List InventoryLot)
    → sellable_sum today (insert_by lot_before x ys) ≡ sellable today x + sellable_sum today ys
unfolding sellable_sum
sellable_sum-insert_by today x [] = refl
sellable_sum-insert_by today x (y ∷ ys) = ground (arith, sellable_sum-insert_by today x ys)

-- Sorting changes nothing about what can be sold.
pub sellable_sum-sort_lots :
    (today : Time) (lots : List InventoryLot)
    → sellable_sum today (sort_lots lots) ≡ sellable_sum today lots
unfolding sellable_sum sort_lots
sellable_sum-sort_lots today [] = refl
sellable_sum-sort_lots today (x ∷ xs) =
    sellable_sum-insert_by today x (sort_lots xs)
    ∙ ap (◌+◌ (sellable today x)) (sellable_sum-sort_lots today xs)

pub sort_lots-Counted : (lots : List InventoryLot) → Counted lots → Counted (sort_lots lots)
unfolding sort_lots
sort_lots-Counted lots h = All-sort_by (λ lot. IsCount lot.qty_available) lot_before lots h

-- The sum that `CreateCheckout` computes is the number of units that can be sold, as long as that
-- number is an `int`.
pub available_by_lot-eq :
    (today : Time) (sum : ℕ) (lots : List InventoryLot)
    → Counted lots
    → sum + sellable_sum today lots < 2 ^ 63
    → available_by_lot today (pos sum) lots ≡ pos (sum + sellable_sum today lots)
unfolding available_by_lot sellable_sum
available_by_lot-eq today sum [] c h = ap pos (omega arith)
available_by_lot-eq today sum (lot ∷ lots) c h =
    let (q, e, hq) = Count-cases lot.qty_available c.0 in
    ground (
      arith,
      add64_pos sum q,
      available_by_lot-eq today sum lots c.1,
      available_by_lot-eq today (sum + q) lots c.1,
    )

-- A checkout of `r` units takes `r` units out of the lots that can be sold, or all of them where
-- they hold fewer, if every lot holds a count of units.
pub consume_takes :
    (today : Time) (r : ℕ) (lots : List InventoryLot)
    → r < 2 ^ 63
    → Counted lots
    → sellable_sum today (consume today (pos r) lots) ≡ sellable_sum today lots - r
consume_takes today r lots h c =
    ap (sellable_sum today) (consume-eq-draw today r lots h c) ∙ sellable_sum-draw today r lots
