-- ===== src/Service/Sales/Offline.antt =====
-- An offline envelope gets one status for each of its transactions, and what was sold stays sold.
use kasirinaja.Prelude.{String, List, [], ◌∷◌, map, ◌≡◌, refl, ap₂, arith, Float64}
use kasirinaja.Domain.{
  Env, OfflineTransaction, OfflineSyncRequest, OfflineSyncStatus, CheckoutResponse,
}
use kasirinaja.Store.{Result, ok, err}
use kasirinaja.Memory.State.{Store}
use kasirinaja.Service.Context.{Context, Formats, later}
use kasirinaja.Service.Checkout.{checkout}
use kasirinaja.Service.Sales.{offline_checkout, offline_status, sync_each, sync_offline}

offline_status-client :
    (client : String) (result : Result CheckoutResponse)
    → (offline_status client result).client_transaction_id ≡ client
unfolding offline_status
offline_status-client client (ok response) = refl
offline_status-client client (err e) = refl

module _ {F : Type 0} ⦃fl : Float64 F⦄ where
  pub sync_each-answers :
      (ctx : Context) (formats : Formats) (env : Env) (request : OfflineSyncRequest F)
      (txs : List (OfflineTransaction F)) (s : Store F)
      → (statuses : List OfflineSyncStatus) × (s' : Store F) × (sync_each ctx formats env request
            txs s
          ≡ (ok statuses, s'))
        × (map (λ status. status.client_transaction_id) statuses
            ≡ map (λ tx. tx.client_transaction_id) txs)
  unfolding sync_each
  sync_each-answers ctx formats env request [] s = ([], s, refl, refl)
  sync_each-answers ctx formats env request (tx ∷ txs) s =
      let (result, s1) = checkout ctx formats env (offline_checkout request tx) s in
      let (statuses, s', runs, names) =
        sync_each-answers ctx formats (later 10 env) request txs s1 in
      (
        offline_status tx.client_transaction_id result ∷ statuses,
        s',
        ground arith,
        ap₂ ◌∷◌ (offline_status-client tx.client_transaction_id result) names,
      )

  -- An envelope is always answered, with its own identifier and with one status for each of its
  -- transactions, in their order, whatever becomes of the checkouts.
  pub sync_offline_lem :
      (ctx : Context) (formats : Formats) (env : Env) (request : OfflineSyncRequest F) (s : Store F)
      → (statuses : List OfflineSyncStatus) × (s' : Store F) × (sync_offline ctx formats env request
            s
          ≡ (ok (record { envelope_id = request.envelope_id; statuses = statuses }), s'))
        × (map (λ status. status.client_transaction_id) statuses
            ≡ map (λ tx. tx.client_transaction_id) request.transactions)
  unfolding sync_offline
  sync_offline_lem ctx formats env request s =
      let (statuses, s', runs, names) =
        sync_each-answers ctx formats env request request.transactions s in
      (statuses, s', ground arith, names)
