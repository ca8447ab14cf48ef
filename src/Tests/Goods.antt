-- ===== src/Tests/Goods.antt =====
-- Lots and deliveries.
use mathlib.Core.List.{Perm}
use kasirinaja.Prelude.{
  ◌≢◌, ◌⊎◌, subst, sym, String, pos, pos_part, ◌≡◌, refl, arith, some, List, [], ◌∷◌, ◌-◌, ◌+◌,
  ◌≤ℤ◌, map, lookup, lookup_inner, trim_space,
}
use kasirinaja.Domain.{InventoryLot, TransactionLine, or_now, PurchaseOrder}
use kasirinaja.Store.{ok, err, invalid_transaction}
use kasirinaja.Memory.State.{Store, stock_of, lots_of}
use kasirinaja.Memory.Lots.{consume}
use kasirinaja.Memory.Lots.Fefo.{Counted, draw, sellable_sum, consume_takes}
use kasirinaja.Memory.Lots.Order.{InOrder}
use kasirinaja.Memory.Checkout.{sell_line}
use kasirinaja.Memory.Checkout.Fefo.{sell_line_fefo}
use kasirinaja.Memory.Checkout.Stock.{demand}
use kasirinaja.Memory.Receiving.{receive_purchase_order, receive_items, weighted_cost_cents}
use kasirinaja.Memory.Procurement.{received_order}
use kasirinaja.Memory.Receiving.Cost.{weighted_cost_bounds}
use kasirinaja.Memory.Receiving.Delivery.{item_order, receive_purchase_order_once}
use kasirinaja.Service.Returns.{purchased_by_sku}
use kasirinaja.Service.Returns.Purchased.{purchased_by_sku_lem}
use kasirinaja.Tests.Till.{milk_named}
use kasirinaja.Tests.Fixed.{Fixed, fixed, fixed-IsIeee}
use kasirinaja.Tests.Shop.{outside, shop, order, lot}

consume_takes_example :
    sellable_sum 0 (consume 0 (pos 4) (lot "a" (pos 2) 10 ∷ lot "b" (pos 3) 20 ∷ []))
    ≡ sellable_sum 0 (lot "a" (pos 2) 10 ∷ lot "b" (pos 3) 20 ∷ []) - 4
consume_takes_example =
    consume_takes 0 4 (lot "a" (pos 2) 10 ∷ lot "b" (pos 3) 20 ∷ []) (omega arith)
      (omega arith, (omega arith, tt))

abbrev milk_line : TransactionLine Fixed
milk_line = record { sku = "MILK"; qty = pos 3; unit_price_cents = pos 1000; margin_rate = 2000 }

abbrev sold_line : Store Fixed
sold_line = sell_line 0 "main" shop milk_line

milk_lots : lots_of "main" "MILK" shop ≡ lot "new" (pos 3) 20 ∷ lot "old" (pos 2) 10 ∷ []
unfolding lots_of lookup_inner lookup
milk_lots = refl

sell_line_fefo_example :
    ((queue : List InventoryLot) × Perm queue (lots_of "main" "MILK" shop)
      × InOrder queue
      × (lots_of "main" "MILK" sold_line ≡ draw 0 3 queue))
    × ((store' sku' : String)
        → (store' ≢ "main") ⊎ (sku' ≢ "MILK")
        → lots_of store' sku' sold_line ≡ lots_of store' sku' shop)
sell_line_fefo_example =
    sell_line_fefo 0 "main" shop milk_line 3 refl (omega arith)
      (subst Counted (sym milk_lots) (omega arith, (omega arith, tt)))

weighted_cost_bounds_example :
    (pos 650 ≤ℤ weighted_cost_cents fixed (pos 700) (pos 5) (pos 650) (pos 4))
    × (weighted_cost_cents fixed (pos 700) (pos 5) (pos 650) (pos 4) ≤ℤ pos 700)
weighted_cost_bounds_example =
    weighted_cost_bounds fixed fixed-IsIeee 700 5 650 4 (omega arith) (omega arith) (omega arith)
      (omega arith) (omega arith)

abbrev received : PurchaseOrder
received = record order { status = "received"; received_at = some 800; received_by = "adi" }

abbrev full_shop : Store Fixed
full_shop = (receive_purchase_order outside "po" "adi" 800 shop).1

delivery : receive_purchase_order outside "po" "adi" 800 shop ≡ (ok received, full_shop)
unfolding receive_purchase_order lookup receive_items received_order or_now trim_space
delivery = refl

ordered : lookup "po" shop.purchase_orders_by_id ≡ some order
unfolding lookup
ordered = refl

milk_held : stock_of "main" "MILK" shop ≡ pos 5
unfolding stock_of lookup_inner lookup
milk_held = refl

receive_purchase_order_once_example :
    (stock_of "main" "MILK" full_shop
      ≡ pos (pos_part (stock_of "main" "MILK" shop) + demand "MILK" (map item_order order.items)))
    × (received.status ≡ "received")
    × (lookup "po" full_shop.purchase_orders_by_id ≡ some received)
    × (receive_purchase_order outside "po" "eko" 850 full_shop
        ≡ (err invalid_transaction, full_shop))
receive_purchase_order_once_example =
    receive_purchase_order_once outside outside "po" "adi" "eko" 800 850 shop delivery ordered
      (omega arith, tt) "MILK" (ground (arith, milk_held)) (ground (arith, milk_held))

abbrev milk_lines : List (TransactionLine Fixed)
milk_lines = record { sku = "MILK"; qty = pos 3; unit_price_cents = pos 1000; margin_rate = 0 } ∷ []

-- Three units were sold, and six can be given back.
purchased_by_sku_lem_example :
    (line : TransactionLine Fixed) × (lookup "MILK" (purchased_by_sku milk_lines) ≡ some line)
    × (line.sku ≡ "MILK")
    × (line.qty ≡ pos 6)
purchased_by_sku_lem_example =
    purchased_by_sku_lem "MILK" milk_lines milk_named (omega arith, tt) (omega arith) (omega arith)
