-- ===== src/Http/Handlers/Pin.antt =====
-- Voids, refunds and returns need the PIN of the manager.
use kasirinaja.Prelude.{
  ◌≡◌, ◌⊎◌, refl, inl, inr, Bool, true, false, String, Option, str_eq, Bool-cases, Float64, arith,
  ℕ,
}
use Prim.Native.String.{◌++◌ as ◌++ˢ◌}
use kasirinaja.Domain.{Time, Env, VoidTransactionRequest, RefundRequest, ItemReturnRequest}
use kasirinaja.Store.{Error, Result, ok, Result-cases}
use kasirinaja.Memory.State.{Store}
use kasirinaja.Service.Context.{Context, Formats, later}
use kasirinaja.Service.Sales.{void_transaction, refund}
use kasirinaja.Service.Returns.{process_item_return}
use kasirinaja.Http.Limiter.{allow}
use kasirinaja.Http.Auth.Outside.{Bcrypt}
use kasirinaja.Http.Auth.{validate_manager_pin}
use kasirinaja.Http.Csrf.{Request}
use kasirinaja.Http.Handlers.{
  Api, Reply, replied, failed, client_key, check_pin, serve_call, serve_as, write_error, void_path,
  void_status, refund_status, handle_transaction_actions, handle_refunds, handle_item_returns,
}

abbrev pub is_failed : {A : Type 0} → Reply A → Bool
is_failed (replied _ _) = false
is_failed (failed _ _) = true

module _ {F : Type 0} (b : Bcrypt) (parse_addr_port : String → Option String) (now : Time)
    (r : Request) (a : Api F) where
  -- The PIN is that of the manager, and the client was not over its limit.
  pub record IsPinned (tag pin : String) : Type 0 where
    pub is_post : str_eq r.method "POST" ≡ true
    pub allowed : (allow (tag ++ˢ client_key parse_addr_port r) now a.pin_limiter).0 ≡ true
    pub valid : validate_manager_pin b a.manager pin ≡ true

  -- A request is refused with the store as it was, or its body has the PIN.
  unfoldable pub Guarded :
      {A B : Type 0} → String → (A → String) → Result A → Reply B × Api F → Type 0
  Guarded {A = A} tag pin body (reply, a') =
      ((is_failed reply ≡ true) × (a'.store ≡ a.store))
      ⊎ ((request : A) × (body ≡ ok request) × IsPinned tag (pin request))

  serve_call-Guarded :
      {A B : Type 0} (status : Error → ℕ) (call : Store F → Result B × Store F) (tag : String)
      (pin : A → String) (request : A)
      → str_eq r.method "POST" ≡ true
      → Guarded tag pin
          (ok request)
          (serve_call status call (check_pin b parse_addr_port now r tag (pin request) a))
  unfolding Guarded serve_call serve_as check_pin write_error
  serve_call-Guarded status call tag pin request post =
      let key = tag ++ˢ client_key parse_addr_port r in
      elim (Bool-cases (allow key now a.pin_limiter).0) [
        | inr over ↦ inl (ground arith)
        | inl allowed ↦ elim (Bool-cases (validate_manager_pin b a.manager (pin request))) [
          | inr wrong ↦ inl (ground arith)
          | inl valid ↦
              inr (request, refl, record { is_post = post; allowed = allowed; valid = valid })
        ]
      ]

module _ {F : Type 0} ⦃fl : Float64 F⦄ (b : Bcrypt) (parse_addr_port : String → Option String)
    (ctx : Context) (formats : Formats) (env : Env) (r : Request) (a : Api F) where
  voids-Guarded :
      (body : Result VoidTransactionRequest)
      → Guarded b parse_addr_port
          (env.now 0)
          r
          a
          "pin:void:"
          (λ q. q.manager_pin)
          body
          (handle_transaction_actions b parse_addr_port ctx formats env r body a)
  unfolding handle_transaction_actions Guarded write_error
  voids-Guarded body = elim (Bool-cases (str_eq r.method "POST")) [
    | inr other ↦ rw other (inl (refl, refl))
    | inl post ↦ elim (Result-cases (void_path r.path)) [
      | inr (e, bad) ↦ rw (post, bad) (inl (refl, refl))
      | inl (id, found) ↦ elim (Result-cases body) [
        | inr (e, bad) ↦ rw (post, found, bad) (inl (refl, refl))
        | inl (request, read) ↦
            rw (post, found, read)
              (serve_call-Guarded b parse_addr_port (env.now 0) r a void_status
                (void_transaction ctx formats (later 1 env)
                  (record request { transaction_id = id }))
                "pin:void:" (λ q. q.manager_pin) request post)
      ]
    ]
  ]

  refunds-Guarded :
      (body : Result RefundRequest)
      → Guarded b parse_addr_port
          (env.now 0)
          r
          a
          "pin:refund:"
          (λ q. q.manager_pin)
          body
          (handle_refunds b parse_addr_port ctx formats env r body a)
  unfolding handle_refunds Guarded write_error
  refunds-Guarded body = elim (Bool-cases (str_eq r.method "POST")) [
    | inr other ↦ rw other (inl (refl, refl))
    | inl post ↦ elim (Result-cases body) [
      | inr (e, bad) ↦ rw (post, bad) (inl (refl, refl))
      | inl (request, read) ↦
          rw (post, read)
            (serve_call-Guarded b parse_addr_port (env.now 0) r a refund_status
              (refund ctx (later 1 env) request) "pin:refund:" (λ q. q.manager_pin) request post)
    ]
  ]

  returns-Guarded :
      (body : Result ItemReturnRequest)
      → Guarded b parse_addr_port
          (env.now 0)
          r
          a
          "pin:return:"
          (λ q. q.manager_pin)
          body
          (handle_item_returns b parse_addr_port ctx formats env r body a)
  unfolding handle_item_returns Guarded write_error
  returns-Guarded body = elim (Bool-cases (str_eq r.method "POST")) [
    | inr other ↦ rw other (inl (refl, refl))
    | inl post ↦ elim (Result-cases body) [
      | inr (e, bad) ↦ rw (post, bad) (inl (refl, refl))
      | inl (request, read) ↦
          rw (post, read)
            (serve_call-Guarded b parse_addr_port (env.now 0) r a refund_status
              (process_item_return ctx formats (later 1 env) request) "pin:return:"
              (λ q. q.manager_pin) request post)
    ]
  ]

module _ {F : Type 0} ⦃fl : Float64 F⦄ where
  -- A void, a refund and an item return each fail and leave the store as it was, unless the request
  -- is a POST whose body has the PIN of the manager, from a client that is under the limit of its
  -- attempts at that.
  pub pin_guard :
      (b : Bcrypt) (parse_addr_port : String → Option String) (ctx : Context) (formats : Formats)
      (env : Env) (r : Request) (voids : Result VoidTransactionRequest)
      (refunds : Result RefundRequest) (returns : Result ItemReturnRequest) (a : Api F)
      → Guarded b parse_addr_port
          (env.now 0)
          r
          a
          "pin:void:"
          (λ q. q.manager_pin)
          voids
          (handle_transaction_actions b parse_addr_port ctx formats env r voids a)
        × Guarded b parse_addr_port
            (env.now 0)
            r
            a
            "pin:refund:"
            (λ q. q.manager_pin)
            refunds
            (handle_refunds b parse_addr_port ctx formats env r refunds a)
        × Guarded b parse_addr_port
            (env.now 0)
            r
            a
            "pin:return:"
            (λ q. q.manager_pin)
            returns
            (handle_item_returns b parse_addr_port ctx formats env r returns a)
  pin_guard b parse_addr_port ctx formats env r voids refunds returns a = (
    voids-Guarded b parse_addr_port ctx formats env r a voids,
    refunds-Guarded b parse_addr_port ctx formats env r a refunds,
    returns-Guarded b parse_addr_port ctx formats env r a returns,
  )
