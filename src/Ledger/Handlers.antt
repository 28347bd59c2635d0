-- ===== src/Ledger/Handlers.antt =====
-- infra/handlers.py. `uuid i` is what the i-th call of `uuid4` within a handler returns. Each handler
-- works on copies up to `save_all`, so its reading part and its writing part are steps of their own.
use hexastack.Base.{
  ℕ, ◌+◌, String, not, if◌then◌else◌, same_str, Option, none, some, List, [], ◌∷◌, ◌||◌, is_some,
}
use hexastack.Base.Int.{ℤ, pos, leb_ℤ}
use hexastack.Base.Outcome.{
  Outcome, Done, returned, raised, interrupted, raise_if, required, ◌>>=◌, invalid_amount,
  account_not_found, account_already_exists,
}
use hexastack.Dict.{string_key}
use hexastack.Ledger.Account.{
  Account, active, frozen, TransactionEntry, EntryDirection, debit, credit, new_entry, apply_entry,
}
use hexastack.Ledger.Journal.{JournalTransaction, new_transaction}
use hexastack.Ledger.Repository.{Storage, Ledger, get_by_id, save, save_all, save_transaction}

pub record CreateAccountCommand : Type 0 where
  pub account_id : Option String
  pub tenant_id : String
  pub owner_id : String
  pub currency : String
  pub initial_balance : ℤ
  pub credit_limit : ℤ

pub record TransferMoneyCommand : Type 0 where
  pub source_account_id : String
  pub destination_account_id : String
  pub amount : ℤ
  pub reference : String
  pub description : String
  pub currency : String

pub record PostingLineDto : Type 0 where
  pub account_id : String
  pub direction : String
  pub amount : ℤ
  pub currency : String

pub record RecordTransactionCommand : Type 0 where
  pub reference : String
  pub description : String
  pub entries : List PostingLineDto

-- The two repositories.
pub record Repositories : Type 0 where
  pub accounts : Storage
  pub ledger : Ledger

-- What a writing step leaves: it raises and changes nothing, or it returns the new accounts.
abbrev pub stored : Outcome Storage → Repositories → Outcome (Unit {0}) × Repositories
stored (returned s) r = (returned tt, record r { accounts = s })
stored (raised e) r = (raised e, r)
stored interrupted r = (interrupted, r)

-- `cmd.account_id or str(uuid.uuid4())`
abbrev or_new : Option String → String → String
or_new none fresh = fresh
or_new (some id) fresh = if same_str id "" then fresh else id

abbrev created : String → CreateAccountCommand → Account
created acc_id cmd = record {
  account_id = acc_id;
  tenant_id = cmd.tenant_id;
  owner_id = cmd.owner_id;
  currency = cmd.currency;
  balance = cmd.initial_balance;
  credit_limit = cmd.credit_limit;
  status = active;
  version = 0;
}

-- `CreateAccountHandler.__call__`
unfoldable pub create_account : String → CreateAccountCommand → Repositories → Done × Repositories
create_account fresh cmd r =
    let acc_id = or_new cmd.account_id fresh in
    stored
      (raise_if (is_some (get_by_id acc_id r.accounts)) account_already_exists >>= λ _.
        save (created acc_id cmd) r.accounts)
      r

-- `FreezeAccountHandler.__call__`
unfoldable pub freeze_account : String → Repositories → Done × Repositories
freeze_account id r =
    stored
      (required account_not_found (get_by_id id r.accounts) >>= λ account.
        save (record account { status = frozen; version = account.version + 1 }) r.accounts)
      r

-- What a handler has computed when it comes to `save_all`.
pub record Prepared : Type 0 where
  pub changed : List Account
  pub tx : JournalTransaction

abbrev pub entry_for : Account → EntryDirection → TransferMoneyCommand → String → TransactionEntry
entry_for a direction cmd id = record {
  account_id = a.account_id;
  direction = direction;
  amount = cmd.amount;
  entry_id = id;
  currency = cmd.currency;
}

-- `TransferMoneyHandler.__call__` on the two accounts that it has found.
unfoldable pub move_money :
    (ℕ → String) → TransferMoneyCommand → Account → Account → Outcome Prepared
move_money uuid cmd source dest =
    raise_if (not (same_str source.tenant_id dest.tenant_id)) invalid_amount >>= λ _.
    raise_if
      (not (same_str source.currency cmd.currency) || not (same_str dest.currency cmd.currency))
      invalid_amount
    >>= λ _. new_entry (entry_for source debit cmd (uuid 0)) >>= λ debit_entry.
        new_entry (entry_for dest credit cmd (uuid 1)) >>= λ credit_entry.
        apply_entry debit_entry source >>= λ source'. apply_entry credit_entry dest >>= λ dest'.
        new_transaction (record {
          reference = cmd.reference;
          description = cmd.description;
          entries = debit_entry ∷ credit_entry ∷ [];
          transaction_id = uuid 2;
        })
        >>= λ tx. returned (record { changed = source' ∷ dest' ∷ []; tx = tx })

-- The handler up to `save_all`.
unfoldable pub prepare_transfer : (ℕ → String) → TransferMoneyCommand → Storage → Outcome Prepared
unfolding move_money
prepare_transfer uuid cmd s = raise_if (leb_ℤ cmd.amount (pos 0)) invalid_amount >>= λ _.
    raise_if (same_str cmd.source_account_id cmd.destination_account_id) invalid_amount >>= λ _.
    required account_not_found (get_by_id cmd.source_account_id s) >>= λ source.
    required account_not_found (get_by_id cmd.destination_account_id s) >>= λ dest.
    move_money uuid cmd source dest

abbrev pub recorded : JournalTransaction → Done × Repositories → Done × Repositories
recorded tx (returned tt, r) =
    let (outcome, ledger) = save_transaction tx r.ledger in (outcome, record r { ledger = ledger })
recorded tx (raised e, r) = (raised e, r)
recorded tx (interrupted, r) = (interrupted, r)

-- `save_all` and `save_transaction`, on the repositories as they are by then.
unfoldable pub commit : Prepared → Repositories → Done × Repositories
commit p r = recorded p.tx (stored (save_all p.changed r.accounts) r)

-- A handler whose two parts no other one comes between.
abbrev pub prepared_then : Outcome Prepared → Repositories → Done × Repositories
prepared_then (returned p) r = commit p r
prepared_then (raised e) r = (raised e, r)
prepared_then interrupted r = (interrupted, r)

-- `TransferMoneyHandler.__call__`
unfoldable pub transfer : (ℕ → String) → TransferMoneyCommand → Repositories → Done × Repositories
transfer uuid cmd r = prepared_then (prepare_transfer uuid cmd r.accounts) r
