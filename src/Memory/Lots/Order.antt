-- ===== src/Memory/Lots/Order.antt =====
-- The order in which the lots of an article are sold.
use mathlib.Core.List.{Perm}
use mathlib.Core.List.Perm
use kasirinaja.Prelude.{
  ◌≤◌, ◌<◌, ◌≡◌, ◌⊎◌, inl, inr, Bool, Option, none, some, true, false, List, [], ◌∷◌, All, arith,
  ltb, ltb→lt, ltb→le, Bool-cases, insert_by,
}
use kasirinaja.Domain.{Time, InventoryLot}
use kasirinaja.Memory.Lots.{lot_before, received_before, expires_before, sort_lots}

-- One expiry is before another, where no date is the last, and `tie` decides between equal ones.
abbrev pub IsSooner : Option Time → Option Time → Type 0 → Type 0
IsSooner none none tie = tie
IsSooner none (some _) tie = ⊥
IsSooner (some _) none tie = Unit
IsSooner (some a) (some b) tie = (a < b) ⊎ ((a ≡ b) × tie)

-- A lot that expires sooner, or with the other and came no later.
abbrev pub GoesFirst : InventoryLot → InventoryLot → Type 0
GoesFirst a b = IsSooner a.expiry_date b.expiry_date (a.received_at ≤ b.received_at)

-- Every lot goes before those that follow it.
abbrev pub InOrder : List InventoryLot → Type 0
InOrder [] = Unit
InOrder (lot ∷ lots) = All (GoesFirst lot) lots × InOrder lots

IsSooner-trans :
    (x y z : Option Time) (r s t : Time)
    → IsSooner x y (r ≤ s)
    → IsSooner y z (s ≤ t)
    → IsSooner x z (r ≤ t)
IsSooner-trans none none none r s t p q = omega (arith, p, q)
IsSooner-trans none none (some c) r s t p q = absurd q
IsSooner-trans none (some b) z r s t p q = absurd p
IsSooner-trans (some a) y none r s t p q = tt
IsSooner-trans (some a) none (some c) r s t p q = absurd q
IsSooner-trans (some a) (some b) (some c) r s t p q = ground arith

GoesFirst-trans : (a b c : InventoryLot) → GoesFirst a b → GoesFirst b c → GoesFirst a c
GoesFirst-trans a b c =
    IsSooner-trans a.expiry_date b.expiry_date c.expiry_date a.received_at b.received_at
      c.received_at

sooner_or_later :
    (x y : Option Time) (tie : Bool) (R S : Type 0)
    → (tie ≡ true → R)
    → (tie ≡ false → S)
    → (expires_before x y tie ≡ true → IsSooner x y R)
      × (expires_before x y tie ≡ false → IsSooner y x S)
sooner_or_later none none tie R S won lost = (won, lost)
sooner_or_later none (some b) tie R S won lost = (λ h. absurd (ground arith), λ h. tt)
sooner_or_later (some a) none tie R S won lost = (λ h. tt, λ h. absurd (ground arith))
sooner_or_later (some a) (some b) tie R S won lost = (
  λ h. elim (Bool-cases (ltb a b)) [
    | inl e ↦ inl (ltb→lt a b e)
    | inr e ↦ elim (Bool-cases (ltb b a)) [
      | inl e' ↦ absurd (ground arith)
      | inr e' ↦ inr (omega (arith, ltb→le a b e, ltb→le b a e'), won (ground arith))
    ]
  ],
  λ h. elim (Bool-cases (ltb b a)) [
    | inl e ↦ inl (ltb→lt b a e)
    | inr e ↦ elim (Bool-cases (ltb a b)) [
      | inl e' ↦ absurd (ground arith)
      | inr e' ↦ inr (omega (arith, ltb→le a b e', ltb→le b a e), lost (ground arith))
    ]
  ],
)

-- What the comparison of the code says of two lots.
lot_before-GoesFirst :
    (a b : InventoryLot)
    → (lot_before a b ≡ true → GoesFirst a b) × (lot_before a b ≡ false → GoesFirst b a)
unfolding lot_before
lot_before-GoesFirst a b =
    sooner_or_later a.expiry_date b.expiry_date (received_before a b)
      (a.received_at ≤ b.received_at) (b.received_at ≤ a.received_at) (λ h. ground arith)
      (λ h. ground arith)

-- what goes before the first of a queue goes before them all
GoesFirst-all :
    (a b : InventoryLot) (lots : List InventoryLot)
    → GoesFirst a b
    → All (GoesFirst b) lots
    → All (GoesFirst a) lots
GoesFirst-all a b [] p h = tt
GoesFirst-all a b (c ∷ lots) p h = (GoesFirst-trans a b c p h.0, GoesFirst-all a b lots p h.1)

insert_by-all :
    (a lot : InventoryLot) (lots : List InventoryLot)
    → GoesFirst a lot
    → All (GoesFirst a) lots
    → All (GoesFirst a) (insert_by lot_before lot lots)
insert_by-all a lot [] p h = (p, tt)
insert_by-all a lot (b ∷ lots) p h = elim (Bool-cases (lot_before b lot)) [
  | inl e ↦ rw e (h.0, insert_by-all a lot lots p h.1)
  | inr e ↦ rw e (p, h)
]

insert_by-InOrder :
    (lot : InventoryLot) (lots : List InventoryLot)
    → InOrder lots
    → InOrder (insert_by lot_before lot lots)
insert_by-InOrder lot [] h = (tt, tt)
insert_by-InOrder lot (b ∷ lots) h = elim (Bool-cases (lot_before b lot)) [
  | inl e ↦ rw e (
    insert_by-all b lot lots ((lot_before-GoesFirst b lot).0 e) h.0,
    insert_by-InOrder lot lots h.1,
  )
  | inr e ↦
      let first = (lot_before-GoesFirst b lot).1 e in
      rw e ((first, GoesFirst-all lot b lots first h.0), h)
]

insert_by-Perm :
    (lot : InventoryLot) (lots : List InventoryLot)
    → Perm (insert_by lot_before lot lots) (lot ∷ lots)
insert_by-Perm lot [] = Perm.refl (lot ∷ [])
insert_by-Perm lot (b ∷ lots) = elim (Bool-cases (lot_before b lot)) [
  | inl e ↦ rw e (Perm.trans (Perm.cons b (insert_by-Perm lot lots)) (Perm.swap lot b lots))
  | inr e ↦ rw e (Perm.refl (lot ∷ b ∷ lots))
]

pub sort_lots-InOrder : (lots : List InventoryLot) → InOrder (sort_lots lots)
unfolding sort_lots
sort_lots-InOrder [] = tt
sort_lots-InOrder (lot ∷ lots) = insert_by-InOrder lot (sort_lots lots) (sort_lots-InOrder lots)

pub sort_lots-Perm : (lots : List InventoryLot) → Perm (sort_lots lots) lots
unfolding sort_lots
sort_lots-Perm [] = Perm.refl []
sort_lots-Perm (lot ∷ lots) =
    Perm.trans (insert_by-Perm lot (sort_lots lots)) (Perm.cons lot (sort_lots-Perm lots))
