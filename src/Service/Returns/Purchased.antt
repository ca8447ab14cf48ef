-- ===== src/Service/Returns/Purchased.antt =====
-- The quantity of an article that counts as purchased when it is given back.
use kasirinaja.Prelude.{
  ℕ, ◌+◌, ◌<◌, ◌^◌, pos, pos_part, String, some, none, List, [], ◌∷◌, ◌≡◌, ◌≢◌, refl, map, foldl,
  All, Dict, lookup, lookup-insert, str_eq, eq_iff, arith, false, add64, add64_pos, Bool-cases, inl,
  inr, if◌then◌else◌, ap, sym, subst, ◌∙◌,
}
use kasirinaja.Domain.{TransactionLine}
use kasirinaja.Memory.Lots.Fefo.{IsCount, Count-cases}
use kasirinaja.Memory.Checkout.Lines.{order_of}
use kasirinaja.Memory.Checkout.Stock.{demand}
use kasirinaja.Service.Returns.{purchased_line, add_purchased, purchased_by_sku}

module _ {F : Type 0} where
  -- The units of the first line of an article.
  abbrev pub first_qty : String → List (TransactionLine F) → ℕ
  first_qty sku [] = 0
  first_qty sku (line ∷ lines) =
      let rest = first_qty sku lines in if str_eq line.sku sku then pos_part line.qty else rest

  -- The article is entered with `n` units.
  abbrev HasUnits : String → ℕ → Dict (TransactionLine F) → Type 0
  HasUnits sku n d =
      (line : TransactionLine F) × (lookup sku d ≡ some line)
      × (line.sku ≡ sku)
      × (line.qty ≡ pos n)

  purchased_line-known :
      (found line : TransactionLine F)
      → found.sku ≢ ""
      → ((purchased_line (some found) line).sku ≡ found.sku)
        × ((purchased_line (some found) line).qty ≡ add64 found.qty line.qty)
  unfolding purchased_line
  purchased_line-known found line given = ground (arith, eq_iff found.sku "")

  -- The first line is counted twice: as the entry, and as what is added to it.
  purchased_line-first :
      (line : TransactionLine F)
      → ((purchased_line none line).sku ≡ line.sku)
        × ((purchased_line none line).qty ≡ add64 line.qty line.qty)
  unfolding purchased_line
  purchased_line-first line = ground arith

  add-known :
      (sku : String) (n : ℕ) (d : Dict (TransactionLine F)) (line : TransactionLine F)
      → sku ≢ ""
      → IsCount line.qty
      → n + demand sku (order_of line ∷ []) < 2 ^ 63
      → HasUnits sku n d
      → HasUnits sku (n + demand sku (order_of line ∷ [])) (add_purchased d line)
  unfolding add_purchased
  add-known sku n d line given count room (found, q, name, qty) =
      let (m, em, hm) = Count-cases line.qty count in
      let entry = lookup-insert sku line.sku (purchased_line (lookup line.sku d) line) d in
      elim (Bool-cases (str_eq line.sku sku)) [
        | inl same ↦
            let here : lookup line.sku d ≡ some found = ground (arith, eq_iff line.sku sku) in
            let named : found.sku ≢ "" = λ e. given (sym name ∙ e) in
            let (kept, sum) = purchased_line-known found line named in
            (
              purchased_line (some found) line,
              ground arith,
              kept ∙ name,
              ground (arith, add64_pos n m),
            )
        | inr other ↦ (found, ground arith, name, ground arith)
      ]

  -- The rounds for lines after the first of an article.
  add-known_lines :
      (sku : String) (n : ℕ) (d : Dict (TransactionLine F)) (lines : List (TransactionLine F))
      → sku ≢ ""
      → All (λ line. IsCount line.qty) lines
      → n + demand sku (map order_of lines) < 2 ^ 63
      → HasUnits sku n d
      → HasUnits sku (n + demand sku (map order_of lines)) (foldl add_purchased d lines)
  add-known_lines sku n d [] given counts room h = subst (λ n. HasUnits sku n d) (omega arith) h
  add-known_lines sku n d (line ∷ lines) given counts room h =
      let one = demand sku (order_of line ∷ []) in
      let step = add-known sku n d line given counts.0 (omega arith) h in
      subst (λ n. HasUnits sku n (foldl add_purchased (add_purchased d line) lines)) (omega arith)
        (add-known_lines sku (n + one) (add_purchased d line) lines given counts.1 (omega arith)
          step)

  add-new :
      (sku : String) (m : ℕ) (d : Dict (TransactionLine F)) (line : TransactionLine F)
      → line.sku ≡ sku
      → line.qty ≡ pos m
      → m + m < 2 ^ 63
      → lookup sku d ≡ none
      → HasUnits sku (m + m) (add_purchased d line)
  unfolding add_purchased
  add-new sku m d line here em room new =
      let entry = lookup-insert sku line.sku (purchased_line (lookup line.sku d) line) d in
      let (kept, sum) = purchased_line-first line in
      let fresh : lookup line.sku d ≡ none = ap (λ k. lookup k d) here ∙ new in
      let same = (eq_iff line.sku sku).1 here in
      (purchased_line none line, ground arith, kept ∙ here, ground (arith, add64_pos m m))

  add-other :
      (sku : String) (d : Dict (TransactionLine F)) (line : TransactionLine F)
      → str_eq line.sku sku ≡ false
      → lookup sku d ≡ none
      → lookup sku (add_purchased d line) ≡ none
  unfolding add_purchased
  add-other sku d line other new =
      let entry = lookup-insert sku line.sku (purchased_line (lookup line.sku d) line) d in
      ground arith

  add-first :
      (sku : String) (d : Dict (TransactionLine F)) (lines : List (TransactionLine F))
      → sku ≢ ""
      → All (λ line. IsCount line.qty) lines
      → lookup sku d ≡ none
      → 0 < demand sku (map order_of lines)
      → first_qty sku lines + demand sku (map order_of lines) < 2 ^ 63
      → HasUnits sku
          (first_qty sku lines + demand sku (map order_of lines))
          (foldl add_purchased d lines)
  add-first sku d [] given counts new some_units room = absurd (omega arith)
  add-first sku d (line ∷ lines) given counts new some_units room =
      let d' = add_purchased d line in
      let total = first_qty sku (line ∷ lines) + demand sku (map order_of (line ∷ lines)) in
      let (m, em, hm) = Count-cases line.qty counts.0 in
      elim (Bool-cases (str_eq line.sku sku)) [
        | inl same ↦
            let here = (eq_iff line.sku sku).0 same in
            let sum : m + m + demand sku (map order_of lines) ≡ total = ground arith in
            let start = add-new sku m d line here em (omega arith) new in
            subst (λ n. HasUnits sku n (foldl add_purchased d' lines)) sum
              (add-known_lines sku (m + m) d' lines given counts.1 (omega arith) start)
        | inr other ↦
            let sum : first_qty sku lines + demand sku (map order_of lines) ≡ total =
              ground arith in
            let still = add-other sku d line other new in
            subst (λ n. HasUnits sku n (foldl add_purchased d' lines)) sum
              (add-first sku d' lines given counts.1 still (ground arith) (omega arith))
      ]

  -- `ProcessItemReturn` takes as purchased of an article the units of the first line of the sale
  -- that lists it once more than the sale has of it, if the quantities of the lines are counts of
  -- units, one of them is of this article, and the sum is a Go integer.
  pub purchased_by_sku_lem :
      (sku : String) (lines : List (TransactionLine F))
      → sku ≢ ""
      → All (λ line. IsCount line.qty) lines
      → 0 < demand sku (map order_of lines)
      → first_qty sku lines + demand sku (map order_of lines) < 2 ^ 63
      → (line : TransactionLine F) × (lookup sku (purchased_by_sku lines) ≡ some line)
        × (line.sku ≡ sku)
        × (line.qty ≡ pos (first_qty sku lines + demand sku (map order_of lines)))
  unfolding purchased_by_sku lookup
  purchased_by_sku_lem sku lines given counts some_units room =
      add-first sku [] lines given counts refl some_units room
