-- ===== src/Memory/Checkout/Fefo.antt =====
-- A sold line draws on the lots of its article that expire first.
use mathlib.Core.List.{Perm}
use kasirinaja.Prelude.{
  ℕ, ◌<◌, ◌^◌, ◌≡◌, ◌≢◌, ◌⊎◌, refl, ◌∙◌, ap, pos, false, String, List, [], ◌∷◌, inl, inr,
  lookup_inner-insert_inner, eq_iff, eq_refl, arith,
}
use kasirinaja.Domain.{Time, TransactionLine, InventoryLot}
use kasirinaja.Memory.State.{Store, lots_of}
use kasirinaja.Memory.Lots.{sort_lots, consume}
use kasirinaja.Memory.Lots.Fefo.{Counted, draw, consume-eq-draw, sort_lots-Counted}
use kasirinaja.Memory.Lots.Order.{InOrder, sort_lots-InOrder, sort_lots-Perm}
use kasirinaja.Memory.Checkout.{is_empty, sell_line}

empty_or_not : (lots : List InventoryLot) → (lots ≡ []) ⊎ (is_empty lots ≡ false)
unfolding is_empty
empty_or_not [] = inl refl
empty_or_not (lot ∷ lots) = inr refl

module _ {F : Type 0} where
  -- The lots that a sold line leaves.
  lots_of-sell_line :
      (today : Time) (store : String) (s : Store F) (item : TransactionLine F)
      → lots_of store item.sku (sell_line today store s item)
        ≡ consume today item.qty (sort_lots (lots_of store item.sku s))
  unfolding sell_line lots_of is_empty sort_lots consume
  lots_of-sell_line today store s item =
      let lots = lots_of store item.sku s in
      let left = consume today item.qty (sort_lots lots) in
      elim (empty_or_not lots) [
        | inl none_left ↦ ground (arith, none_left)
        | inr some_left ↦ rw (some_left, lookup_inner-insert_inner, eq_refl, eq_refl) refl
      ]

  -- It leaves those of other articles and stores.
  other_lots :
      (today : Time) (store : String) (s : Store F) (item : TransactionLine F)
      (store' sku' : String)
      → (store' ≢ store) ⊎ (sku' ≢ item.sku)
      → lots_of store' sku' (sell_line today store s item) ≡ lots_of store' sku' s
  unfolding sell_line lots_of is_empty
  other_lots today store s item store' sku' h =
      let lots = lots_of store item.sku s in
      let left = consume today item.qty (sort_lots lots) in
      ground (
        arith,
        eq_iff store store',
        eq_iff item.sku sku',
        lookup_inner-insert_inner store' sku' store item.sku left s.inventory_lots,
      )

  -- First expired, first out: where the lots of an article hold counts of units, a sold line of
  -- `n` units puts them in an order in which a lot stands before those that expire later, or never,
  -- and before those with its expiry that came later, and takes the units that can be sold off the
  -- first, each later lot giving only what the lots before it could not; the lots of every other
  -- article and store stay.
  pub sell_line_fefo :
      (today : Time) (store : String) (s : Store F) (item : TransactionLine F) (n : ℕ)
      → item.qty ≡ pos n
      → n < 2 ^ 63
      → Counted (lots_of store item.sku s)
      → ((queue : List InventoryLot) × Perm queue (lots_of store item.sku s)
          × InOrder queue
          × (lots_of store item.sku (sell_line today store s item) ≡ draw today n queue))
        × ((store' sku' : String)
            → (store' ≢ store) ⊎ (sku' ≢ item.sku)
            → lots_of store' sku' (sell_line today store s item) ≡ lots_of store' sku' s)
  sell_line_fefo today store s item n e h counts =
      let lots = lots_of store item.sku s in
      (
        (
          sort_lots lots,
          sort_lots-Perm lots,
          sort_lots-InOrder lots,
          lots_of-sell_line today store s item
              ∙ ap (λ q. consume today q (sort_lots lots)) e
              ∙ consume-eq-draw today n (sort_lots lots) h (sort_lots-Counted lots counts),
        ),
        other_lots today store s item,
      )
