-- ===== src/Memory/Reports/Sums.antt =====
-- Sums of figures, which neither sorting nor tallying loses.
use kasirinaja.Prelude.{
  ◌+◌, ◌%◌, ◌^◌, ◌≡◌, refl, ℤ, pos, Fits, low, low-lt, low_zero, low-add64, add64, add64-Fits, Bool,
  String, List, [], ◌∷◌, Dict, lookup, insert, values, get_or, insert_by, sort_by, str_eq, arith,
  Bool-cases, inl, inr,
}
use kasirinaja.Memory.Reports.{tally}

-- The sum of a figure over a list, wrapping as Go does.
abbrev pub sum_of : {V : Type 0} → (V → ℤ) → List V → ℤ
sum_of f [] = pos 0
sum_of f (v ∷ vs) = add64 (f v) (sum_of f vs)

pub sum_of-Fits : {V : Type 0} (f : V → ℤ) (vs : List V) → Fits (sum_of f vs)
sum_of-Fits f [] = omega arith
sum_of-Fits f (v ∷ vs) = add64-Fits (f v) (sum_of f vs)

module _ {V : Type 0} (f : V → ℤ) where
  -- Sorting does not change a sum.
  sum_of-insert_by :
      (before : V → V → Bool) (v : V) (vs : List V)
      → low (sum_of f (insert_by before v vs)) ≡ low (add64 (f v) (sum_of f vs))
  sum_of-insert_by before v [] = refl
  sum_of-insert_by before v (w ∷ ws) = elim (Bool-cases (before w v)) [
    | inr after ↦ rw after refl
    | inl first ↦ rw first (
        omega (
          arith,
          low-add64 (f w) (sum_of f (insert_by before v ws)),
          low-add64 (f v) (add64 (f w) (sum_of f ws)),
          low-add64 (f w) (sum_of f ws),
          low-add64 (f v) (sum_of f ws),
          sum_of-insert_by before v ws,
        ))
  ]

  pub sum_of-sort_by :
      (before : V → V → Bool) (vs : List V) → low (sum_of f (sort_by before vs)) ≡ low (sum_of f vs)
  sum_of-sort_by before [] = refl
  sum_of-sort_by before (v ∷ vs) = omega (
    arith,
    sum_of-insert_by before v (sort_by before vs),
    low-add64 (f v) (sum_of f (sort_by before vs)),
    low-add64 (f v) (sum_of f vs),
    sum_of-sort_by before vs,
  )

  -- An entry that grows by `t`, or is new at `t`, adds it to the sum.
  sum_of-insert :
      (new : V) (t : ℤ) (k : String) (w : V) (d : Dict V)
      → low (f new) ≡ 0
      → low (f w) ≡ (low (f (get_or (lookup k d) new)) + low t) % 2 ^ 64
      → low (sum_of f (values (insert k w d))) ≡ (low (sum_of f (values d)) + low t) % 2 ^ 64
  unfolding lookup insert
  sum_of-insert new t k w [] z h = omega (arith, low-add64 (f w) (pos 0), low-lt t, low_zero)
  sum_of-insert new t k w ((j, v) ∷ d) z h = elim (Bool-cases (str_eq j k)) [
    | inl same ↦
        let grown : low (f w) ≡ (low (f v) + low t) % 2 ^ 64 = rw same at h in
        rw same (
          omega (
            arith,
            grown,
            low-add64 (f w) (sum_of f (values d)),
            low-add64 (f v) (sum_of f (values d)),
          ))
    | inr other ↦
        let grown : low (f w) ≡ (low (f (get_or (lookup k d) new)) + low t) % 2 ^ 64 =
          rw other at h in
        rw other (
          omega (
            arith,
            sum_of-insert new t k w d z grown,
            low-add64 (f v) (sum_of f (values d)),
            low-add64 (f v) (sum_of f (values (insert k w d))),
          ))
  ]

  -- A tally adds to the sum what it adds to its entry.
  pub sum_of-tally :
      (new : String → V) (bump : V → V) (t : ℤ) (k : String) (d : Dict V)
      → low (f (new k)) ≡ 0
      → ((v : V) → low (f (bump v)) ≡ (low (f v) + low t) % 2 ^ 64)
      → low (sum_of f (values (tally new bump k d))) ≡ (low (sum_of f (values d)) + low t) % 2 ^ 64
  unfolding tally
  sum_of-tally new bump t k d z h =
      sum_of-insert (new k) t k (bump (get_or (lookup k d) (new k))) d z
        (h (get_or (lookup k d) (new k)))
