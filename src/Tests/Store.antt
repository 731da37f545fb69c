-- ===== src/Tests/Store.antt =====
-- Transactions over a table of numbers.
use cron_lib.Base.{ℕ, ◌≡◌, refl, String, Option, none, some, List, [], ◌∷◌, true}
use cron_lib.Manager.State.{answered, lost}
use cron_lib.Store.{TxCalls, exec_tx, seed_reference_data, handle_seed}

-- The answer to the commit is lost.
abbrev cut_off : TxCalls
cut_off = record {
  begin_error = none;
  rollback_error = none;
  commit = lost;
  commit_error = "connection reset";
}

abbrev add_seven : List ℕ → Option String × List ℕ
add_seven rows = (none, 7 ∷ rows)

-- A body that fails, in a transaction whose rollback fails too.
abbrev fail : List ℕ → Option String × List ℕ
fail rows = (some "no such row", 9 ∷ rows)

failed_body :
    exec_tx (record cut_off { rollback_error = some "closed" }) fail (3 ∷ [])
    ≡ (some "tx err: no such row, rb err: closed", 3 ∷ [])
unfolding exec_tx
failed_body = refl

abbrev seed : String → List ℕ → Option String × List ℕ
seed = seed_reference_data (record cut_off { commit = answered })

seeding_created : (handle_seed seed true (some "t") (3 ∷ [])).0.code ≡ 201
unfolding handle_seed seed_reference_data
seeding_created = refl
