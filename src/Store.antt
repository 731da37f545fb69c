-- ===== src/Store.antt =====
-- pkg/db/store.go and pkg/service: transactions over the tables, with state `S`, and what seeds them.
use Prim.Native.String.{◌++◌}
use cron_lib.Base.{String, Bool, true, false, Option, none, some}
use cron_lib.Manager.State.{Fault, answered, lost, refused}
use cron_lib.Api.{no_body, empty_object, error_text, Response, respond}

-- How the calls of a transaction end: the error of BeginTx and of Rollback, if there is one, and the
-- outcome of Commit with the text of its error. A transaction that is not committed changes nothing,
-- also if its Rollback fails.
pub record TxCalls : Type 0 where
  pub begin_error : Option String
  pub rollback_error : Option String
  pub commit : Fault
  pub commit_error : String

module _ {S : Type 0} where
  -- The error that is returned, and the state after it.
  abbrev pub committed : TxCalls → S → S → Option String × S
  committed calls old new = elim calls.commit [
    | answered ↦ (none, new)
    | lost ↦ (some ("commit error: " ++ calls.commit_error), new)
    | refused ↦ (some ("commit error: " ++ calls.commit_error), old)
  ]

  abbrev pub rolled_back : TxCalls → String → S → Option String × S
  rolled_back calls text old = elim calls.rollback_error [
    | none ↦ (some text, old)
    | some rollback_text ↦ (some ("tx err: " ++ (text ++ (", rb err: " ++ rollback_text))), old)
  ]

  abbrev pub finish : TxCalls → S → Option String × S → Option String × S
  finish calls old (none, new) = committed calls old new
  finish calls old (some text, new) = rolled_back calls text old

  -- Store.ExecTx
  unfoldable pub exec_tx : TxCalls → (S → Option String × S) → S → Option String × S
  exec_tx calls body old = elim calls.begin_error [
    | some text ↦ (some text, old)
    | none ↦ finish calls old (body old)
  ]

  -- seedSampleData
  abbrev pub seed_sample : String → S → Option String × S
  seed_sample tenant_id s = (none, s)

  -- SeedService.SeedSampleData is written out like ExecTx.
  unfoldable pub seed_sample_data : TxCalls → String → S → Option String × S
  seed_sample_data calls tenant_id old = elim calls.begin_error [
    | some text ↦ (some text, old)
    | none ↦ finish calls old (seed_sample tenant_id old)
  ]

  -- seedCoreRefenceData, and seedRefenceData, which calls it.
  abbrev pub seed_core_refence : String → S → Option String × S
  seed_core_refence tenant_id s = (none, s)

  abbrev pub seed_refence : String → S → Option String × S
  seed_refence tenant_id s = seed_core_refence tenant_id s

  -- An error here is returned without a Rollback, with the transaction open.
  abbrev pub then_seed :
      (S → Option String × S)
      → (S → S → Option String × S)
      → S
      → Option String × S
      → Option String × S
  then_seed next commit old (some text, new) = (some text, old)
  then_seed next commit old (none, new) = last (next new)
    where
      last : Option String × S → Option String × S
      last (some text, newer) = (some text, old)
      last (none, newer) = commit old newer

  -- SeedService.SeedReferenceData
  unfoldable pub seed_reference_data : TxCalls → String → S → Option String × S
  seed_reference_data calls tenant_id old = elim calls.begin_error [
    | some text ↦ (some text, old)
    | none ↦
        then_seed (seed_core_refence tenant_id) (committed calls) old (seed_refence tenant_id old)
  ]

  abbrev pub seeded : Option String × S → Response (Unit {0}) × S
  seeded (none, s) = (respond 201 no_body, s)
  seeded (some text, s) = (respond 500 (error_text text), s)

  -- SeedHandler: both handlers differ in the service's method alone.
  unfoldable pub handle_seed :
      (String → S → Option String × S) → Bool → Option String → S → Response (Unit {0}) × S
  handle_seed seed false tenant s = (respond 403 (error_text "Admin privileges required"), s)
  handle_seed seed true none s = (respond 500 empty_object, s)
  handle_seed seed true (some tenant_id) s = seeded (seed tenant_id s)
