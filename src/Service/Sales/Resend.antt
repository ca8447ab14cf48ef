-- ===== src/Service/Sales/Resend.antt =====
-- An offline envelope that is sent again sells nothing twice.
use kasirinaja.Prelude.{
  String, List, [], ◌∷◌, ◌≡◌, ◌≢◌, refl, ap, sym, subst, ◌∙◌, ◌⊎◌, inl, inr, arith, Float64, All,
}
use kasirinaja.Domain.{
  Env, OfflineTransaction, OfflineSyncRequest, OfflineSyncStatus, OfflineSyncResponse,
  CheckoutResponse,
}
use kasirinaja.Store.{Error, Result, ok, err, Result-cases}
use kasirinaja.Memory.State.{Store}
use kasirinaja.Service.Context.{Context, Formats, later}
use kasirinaja.Service.Checkout.{checkout}
use kasirinaja.Service.Checkout.Records.{IsKept, IsKept-refl, IsKept-trans}
use kasirinaja.Service.Checkout.Keeps.{checkout-IsKept}
use kasirinaja.Service.Checkout.Again.{marked, checkout_later}
use kasirinaja.Service.Sales.{offline_checkout, offline_status, sync_each, sync_offline}
use kasirinaja.Service.Sales.Offline.{sync_each-answers}

-- A transaction that was not rejected the first time is a duplicate the second time, of one sale.
abbrev pub IsResent : OfflineSyncStatus → OfflineSyncStatus → Type 0
IsResent a b =
    (a.status ≡ "rejected") ⊎ ((b.status ≡ "duplicate") × (b.transaction_id ≡ a.transaction_id))

abbrev pub AllResent : List OfflineSyncStatus → List OfflineSyncStatus → Type 0
AllResent [] [] = Unit
AllResent (a ∷ first) (b ∷ second) = IsResent a b × AllResent first second
AllResent [] (_ ∷ _) = ⊥
AllResent (_ ∷ _) [] = ⊥

IsResent-rejected :
    (client client' : String) (first second : Result CheckoutResponse) {e : Error}
    → first ≡ err e
    → IsResent (offline_status client first) (offline_status client' second)
unfolding offline_status
IsResent-rejected client client' first second h = rw h (inl refl)

IsResent-answered :
    (client client' : String) (first second : Result CheckoutResponse) {response : CheckoutResponse}
    → first ≡ ok response
    → second ≡ ok (marked response)
    → IsResent (offline_status client first) (offline_status client' second)
unfolding offline_status
IsResent-answered client client' first second h q = rw (h, q) (inr (refl, refl))

module _ {F : Type 0} ⦃fl : Float64 F⦄ where
  sync_each-cons :
      (ctx : Context) (formats : Formats) (env : Env) (request : OfflineSyncRequest F)
      (tx : OfflineTransaction F) (txs : List (OfflineTransaction F)) (s : Store F)
      {a : List OfflineSyncStatus} {s' : Store F}
      → sync_each ctx formats env request (tx ∷ txs) s ≡ (ok a, s')
      → let outcome = checkout ctx formats env (offline_checkout request tx) s in
        (rest : List OfflineSyncStatus) × (a
          ≡ offline_status tx.client_transaction_id outcome.0 ∷ rest)
        × (sync_each ctx formats (later 10 env) request txs outcome.1 ≡ (ok rest, s'))
  unfolding sync_each
  sync_each-cons ctx formats env request tx txs s {a} {s'} h =
      let (result, s1) = checkout ctx formats env (offline_checkout request tx) s in
      let (rest, end, runs, _) = sync_each-answers ctx formats (later 10 env) request txs s1 in
      (rest, ground arith, ground arith)

  sync_each-IsKept :
      (ctx : Context) (formats : Formats) (env : Env) (request : OfflineSyncRequest F)
      (txs : List (OfflineTransaction F)) (s : Store F) {a : List OfflineSyncStatus} {s' : Store F}
      → sync_each ctx formats env request txs s ≡ (ok a, s')
      → IsKept s s'
  unfolding sync_each
  sync_each-IsKept ctx formats env request [] s {a} {s'} h =
      subst (IsKept s) (ap (λ r. r.1) h) (IsKept-refl s)
  sync_each-IsKept ctx formats env request (tx ∷ txs) s h =
      let asked = offline_checkout request tx in
      let (rest, _, runs) = sync_each-cons ctx formats env request tx txs s h in
      IsKept-trans (checkout-IsKept ctx formats env asked s refl) (
        sync_each-IsKept ctx formats (later 10 env) request txs (checkout ctx formats env asked s).1
          runs)

  sync_each-resent :
      (ctx : Context) (formats : Formats) (env env' : Env) (request : OfflineSyncRequest F)
      (txs : List (OfflineTransaction F)) (s u : Store F) {a b : List OfflineSyncStatus}
      {s' u' : Store F}
      → All (λ tx. (offline_checkout request tx).idempotency_key ≢ "") txs
      → sync_each ctx formats env request txs s ≡ (ok a, s')
      → IsKept s' u
      → sync_each ctx formats env' request txs u ≡ (ok b, u')
      → AllResent a b
  unfolding sync_each
  sync_each-resent ctx formats env env' request [] s u {a} {b} keyed h kept h' = ground arith
  sync_each-resent ctx formats env env' request (tx ∷ txs) s u {a} {b} keyed h kept h' =
      let asked = offline_checkout request tx in
      let client = tx.client_transaction_id in
      let (rest, ea, runs) = sync_each-cons ctx formats env request tx txs s h in
      let (rest', eb, runs') = sync_each-cons ctx formats env' request tx txs u h' in
      let (first, s1) = checkout ctx formats env asked s in
      let (second, u1) = checkout ctx formats env' asked u in
      let later_kept = sync_each-IsKept ctx formats (later 10 env) request txs s1 runs in
      let tail =
        sync_each-resent ctx formats (later 10 env) (later 10 env') request txs s1 u1 keyed.1 runs
          (IsKept-trans kept (checkout-IsKept ctx formats env' asked u refl)) runs' in
      let head : IsResent (offline_status client first) (offline_status client second) =
        elim (Result-cases first) [
          | inr (e, q) ↦ IsResent-rejected client client first second q
          | inl (response, q) ↦
              let again =
                checkout_later ctx formats env env' asked s u keyed.0 (ap (λ r. (r, s1)) q)
                  (IsKept-trans later_kept kept) in
              IsResent-answered client client first second q (ap (λ r. r.0) again)
        ] in
      subst (λ a. AllResent a b) (sym ea)
        (subst (AllResent (offline_status client first ∷ rest)) (sym eb) (head, tail))

  -- An envelope that is sent again after it was answered, whatever the clock and the new identifiers
  -- are by then, gets for each transaction that was not rejected the first time the status of a
  -- duplicate of the same sale, if every transaction of it has a key or a client identifier.
  pub sync_offline_resent :
      (ctx : Context) (formats : Formats) (env env' : Env) (request : OfflineSyncRequest F)
      (s : Store F) {first second : OfflineSyncResponse} {s' u : Store F}
      → All (λ tx. (offline_checkout request tx).idempotency_key ≢ "") request.transactions
      → sync_offline ctx formats env request s ≡ (ok first, s')
      → sync_offline ctx formats env' request s' ≡ (ok second, u)
      → AllResent first.statuses second.statuses
  unfolding sync_offline
  sync_offline_resent ctx formats env env' request s {first} {second} {s'} {u} keyed h h' =
      let (a, t, runs, _) = sync_each-answers ctx formats env request request.transactions s in
      let (b, t', runs', _) = sync_each-answers ctx formats env' request request.transactions s' in
      let ea : first.statuses ≡ a = ground arith in
      let eb : second.statuses ≡ b = ground arith in
      let et : t ≡ s' = ground arith in
      let resent =
        sync_each-resent ctx formats env env' request request.transactions s s' keyed
          (runs ∙ ap (λ t. (ok a, t)) et) (IsKept-refl s') runs' in
      subst (λ a. AllResent a second.statuses) (sym ea) (subst (AllResent a) (sym eb) resent)
