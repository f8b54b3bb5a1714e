-- ===== src/Persist/Service.antt =====
-- `OrderPersistenceService.confirm_order`: the request, the transaction, and what follows a unique
-- constraint that another transaction has taken first.
use order_agent.Prelude.{ℕ, Bool, not, ◌||◌, String, Option, if◌then◌else◌}
use order_agent.Errors.{
  Result, ok, err, ◌>>=◌, ◌>>◌, raise_if, integrity_error, simulation_data_required,
}
use order_agent.State.{SessionState}
use order_agent.Persist.Request.{Tenant, MenuRow, Zone, authoritative_request}
use order_agent.Persist.Database.{Database}
use order_agent.Persist.Fingerprint.{Digest}
use order_agent.Persist.Confirm.{Confirmed, confirm_transaction, resolve_concurrent_replay}

-- The handlers of `confirm_order`; `others` are the rows as the other transaction left them. Every
-- other error leaves the session's state as it was and is raised again.
abbrev handle :
    Tenant → Database → SessionState → String → String → Result Confirmed → Result Confirmed
handle tenant others state key fingerprint (ok confirmed) = ok confirmed
handle tenant others state key fingerprint (err integrity_error) =
    resolve_concurrent_replay tenant others state key fingerprint
handle tenant others state key fingerprint (err error) = err error

-- `simulation_data_only` is the service's field. `key` is the given idempotency key, or the one that
-- is made of the session's key and the draft version.
unfoldable pub confirm_order :
    Digest
    → Bool
    → Tenant
    → (String → Option MenuRow)
    → Option Zone
    → Database
    → Database
    → SessionState
    → String
    → String
    → ℕ
    → String
    → ℕ
    → Result Confirmed
unfolding authoritative_request confirm_transaction resolve_concurrent_replay
confirm_order digest simulation_data_only tenant menu found db others state key source id public_id
      stored_version =
    do
      raise_if
          (if simulation_data_only
            then not tenant.is_simulation || not state.is_synthetic
            else Bool.false)
          simulation_data_required
      request ← authoritative_request tenant menu found state
      let fingerprint = digest.request state.draft_version request
      handle tenant others state key fingerprint (
          confirm_transaction digest tenant db state key fingerprint request source id public_id
            stored_version)
