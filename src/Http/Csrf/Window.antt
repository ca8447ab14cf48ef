-- ===== src/Http/Csrf/Window.antt =====
-- How long a CSRF token is good for.
use kasirinaja.Prelude.{
  ℕ, ◌+◌, ◌-◌, ◌*◌, ◌/◌, ◌%◌, ◌^◌, ◌≤◌, ◌<◌, ◌≡◌, ◌≢◌, ◌⊎◌, sym, ◌∙◌, ap, ℤ, pos, sub_ℕ, sub64,
  pos_part, neg_part, true, false, ◌||◌, String, str_eq, eq_iff, arith, if◌then◌else◌, Bool-cases,
  inl, inr,
}
use kasirinaja.Domain.{Time}
use kasirinaja.Http.Csrf.{
  hour, unix, hour_bucket, HexHmac, IsHexHmac, csrf_token_for_hour, generate_csrf_token,
  validate_csrf_token,
}

-- the second at which an hour begins
hour_second : (t : Time) → (t - t % hour) / 10 ^ 9 ≡ 3600 * (t / hour)
hour_second t = omega arith

bucket_of_hour : (t : Time) → hour_bucket t ≡ sub_ℕ (3600 * (t / hour)) 62_135_596_800
unfolding hour_bucket unix
bucket_of_hour t = ap (λ s. sub_ℕ s 62_135_596_800) (hour_second t)

-- one bucket before
sub_hour : (n : ℕ) → n < 2 ^ 62 → sub64 (sub_ℕ n 62_135_596_800) (pos 3600) ≡ sub_ℕ n 62_135_600_400
unfolding sub64
sub_hour n h = ground arith

bucket_next : (q : ℕ) → sub_ℕ (3600 * (q + 1)) 62_135_600_400 ≡ sub_ℕ (3600 * q) 62_135_596_800
bucket_next q = ground arith

near : (t t' : Time) → t ≤ t' → t' ≤ t + hour → (t' / hour ≡ t / hour) ⊎ (t' / hour ≡ t / hour + 1)
near t t' h k = ground arith

sub_ℕ-inj : (a b c d : ℕ) → sub_ℕ a b ≡ sub_ℕ c d → a + d ≡ c + b
sub_ℕ-inj a b c d h = let p = ap pos_part h in let n = ap neg_part h in ground arith

ne-str_eq : (s t : String) → s ≢ t → str_eq s t ≡ false
ne-str_eq s t h = elim (Bool-cases (str_eq s t)) [
  | inl same ↦ absurd (h ((eq_iff s t).0 same))
  | inr other ↦ other
]

either :
    (token x y : String)
    → token ≢ ""
    → (token ≡ x) ⊎ (token ≡ y)
    → (if str_eq token "" then false else str_eq token x || str_eq token y) ≡ true
either token x y filled h = ground (arith, eq_iff token "", eq_iff token x, eq_iff token y)

module _ (hex_hmac : HexHmac) (law : IsHexHmac hex_hmac) (secret : String) where
  prev_bucket :
      (t : Time)
      → t < 2 ^ 90
      → sub64 (hour_bucket t) (pos 3600) ≡ sub_ℕ (3600 * (t / hour)) 62_135_600_400
  prev_bucket t h =
      ap (λ b. sub64 b (pos 3600)) (bucket_of_hour t) ∙ sub_hour (3600 * (t / hour)) (omega arith)

  accepted :
      (t t' : Time)
      → (hour_bucket t ≡ hour_bucket t') ⊎ (hour_bucket t ≡ sub64 (hour_bucket t') (pos 3600))
      → validate_csrf_token hex_hmac secret t' (generate_csrf_token hex_hmac secret t) ≡ true
  unfolding validate_csrf_token generate_csrf_token csrf_token_for_hour
  accepted t t' e =
      let code = λ (b : ℤ). hex_hmac secret b in
      let filled = law.filled secret (hour_bucket t) in
      elim e [
        | inl same ↦ either (code (hour_bucket t)) _ _ filled (inl (ap code same))
        | inr before ↦ either (code (hour_bucket t)) _ _ filled (inr (ap code before))
      ]

  refused :
      (t t' : Time)
      → hour_bucket t ≢ hour_bucket t'
      → hour_bucket t ≢ sub64 (hour_bucket t') (pos 3600)
      → validate_csrf_token hex_hmac secret t' (generate_csrf_token hex_hmac secret t) ≡ false
  unfolding validate_csrf_token generate_csrf_token csrf_token_for_hour
  refused t t' now before =
      let token = hex_hmac secret (hour_bucket t) in
      let not_now =
        ne-str_eq token (hex_hmac secret (hour_bucket t')) (λ e. now (law.separate secret _ _ e)) in
      let not_before =
        ne-str_eq token (hex_hmac secret (sub64 (hour_bucket t') (pos 3600)))
          (λ e. before (law.separate secret _ _ e)) in
      ground arith

  -- A CSRF token is accepted for an hour at least after it was given, and refused from two hours
  -- after it on, at all times before 2 ^ 90 nanoseconds, if the codes of the HMAC are not empty and
  -- differ from one hour to another.
  pub csrf_window :
      (t t' : Time)
      → t' < 2 ^ 90
      → t ≤ t'
      → (t' ≤ t + hour
          → validate_csrf_token hex_hmac secret t' (generate_csrf_token hex_hmac secret t) ≡ true)
        × (t + 2 * hour ≤ t'
            → validate_csrf_token hex_hmac secret t' (generate_csrf_token hex_hmac secret t)
              ≡ false)
  csrf_window t t' bound order =
      let now = bucket_of_hour t in
      let now' = bucket_of_hour t' in
      let before' = prev_bucket t' bound in
      (
        λ soon. accepted t t' (elim (near t t' order soon) [
          | inl same ↦ inl (now ∙ ap (λ q. sub_ℕ (3600 * q) 62_135_596_800) (sym same) ∙ sym now')
          | inr next ↦ inr (
              now
              ∙ sym (bucket_next (t / hour))
              ∙ ap (λ q. sub_ℕ (3600 * q) 62_135_600_400) (sym next)
              ∙ sym before')
        ]),
        λ late.
            refused t t' (λ e. absurd (omega (arith, sub_ℕ-inj _ _ _ _ (sym now ∙ e ∙ now'))))
              (λ e. absurd (omega (arith, sub_ℕ-inj _ _ _ _ (sym now ∙ e ∙ before')))),
      )
