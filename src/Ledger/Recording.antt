-- ===== src/Ledger/Recording.antt =====
-- infra/handlers.py: `RecordTransactionHandler` and the two queries.
use hexastack.Base.{
  ℕ, suc, String, Bool, false, not, if◌then◌else◌, same_str, List, [], ◌∷◌, ◌||◌, length,
}
use hexastack.Base.Outcome.{
  Outcome, Done, returned, raised, raise_if, required, ◌>>=◌, invalid_amount, account_not_found,
  value_error, other,
}
use hexastack.Dict.{Dict, lookup, insert, contains, values, string_key}
use hexastack.Ledger.Account.{
  Account, TransactionEntry, EntryDirection, debit, credit, new_entry, apply_entry,
}
use hexastack.Ledger.Journal.{new_transaction}
use hexastack.Ledger.Repository.{Storage, get_by_id, get_entries_for_account}
use hexastack.Ledger.Handlers.{
  PostingLineDto, RecordTransactionCommand, Repositories, Prepared, prepared_then,
}

-- `EntryDirection(e.direction)`
abbrev pub parse_direction : String → Outcome EntryDirection
parse_direction s =
    if same_str s "DEBIT"
    then returned debit
    else if same_str s "CREDIT"
    then returned credit
    else raised value_error

-- The comprehension that builds the entries; `i` counts the calls of `uuid4`.
unfoldable pub posting_entries :
    (ℕ → String) → ℕ → List PostingLineDto → Outcome (List TransactionEntry)
posting_entries uuid i [] = returned []
posting_entries uuid i (e ∷ es) = parse_direction e.direction >>= λ direction.
    new_entry (record {
      account_id = e.account_id;
      direction = direction;
      amount = e.amount;
      entry_id = uuid i;
      currency = e.currency;
    })
    >>= λ entry. posting_entries uuid (suc i) es >>= λ rest. returned (entry ∷ rest)

-- The loop that loads the accounts.
unfoldable pub load_accounts :
    List TransactionEntry → Dict String Account → Storage → Outcome (Dict String Account)
load_accounts [] accounts s = returned accounts
load_accounts (e ∷ es) accounts s =
    let known = load_accounts es accounts s in
    let fresh = required account_not_found (get_by_id e.account_id s) >>= λ acc.
    load_accounts es (insert e.account_id acc accounts) s in
    if contains e.account_id accounts then known else fresh

abbrev other_tenant : String → List Account → Bool
other_tenant tenant [] = false
other_tenant tenant (a ∷ rest) = not (same_str a.tenant_id tenant) || other_tenant tenant rest

-- `len({acc.tenant_id for acc in accounts.values()}) > 1`
abbrev pub several_tenants : List Account → Bool
several_tenants [] = false
several_tenants (a ∷ rest) = other_tenant a.tenant_id rest

-- The loop that applies the entries; `other 0` is the `KeyError` of an account that was not loaded.
unfoldable pub apply_entries :
    List TransactionEntry → Dict String Account → Outcome (Dict String Account)
apply_entries [] accounts = returned accounts
apply_entries (e ∷ es) accounts = required (other 0) (lookup e.account_id accounts) >>= λ a.
    apply_entry e a >>= λ b. apply_entries es (insert e.account_id b accounts)

-- The handler up to `save_all`.
unfoldable pub prepare_recording :
    (ℕ → String) → RecordTransactionCommand → Storage → Outcome Prepared
unfolding posting_entries load_accounts apply_entries
prepare_recording uuid cmd s = posting_entries uuid 0 cmd.entries >>= λ entries.
    new_transaction (record {
      reference = cmd.reference;
      description = cmd.description;
      entries = entries;
      transaction_id = uuid (length entries);
    })
    >>= λ tx. load_accounts entries [] s >>= λ accounts.
        raise_if (several_tenants (values accounts)) invalid_amount >>= λ _.
        apply_entries entries accounts >>= λ applied.
        returned (record { changed = values applied; tx = tx })

-- `RecordTransactionHandler.__call__`
unfoldable pub record_transaction :
    (ℕ → String) → RecordTransactionCommand → Repositories → Done × Repositories
record_transaction uuid cmd r = prepared_then (prepare_recording uuid cmd r.accounts) r

-- `GetAccountBalanceHandler.__call__`: the account that the response is made of.
pub get_account_balance : String → Repositories → Outcome Account
get_account_balance id r = required account_not_found (get_by_id id r.accounts)

-- `ListLedgerEntriesHandler.__call__`: the entries that the response lists.
pub list_ledger_entries : String → Repositories → List TransactionEntry
list_ledger_entries id r = get_entries_for_account id r.ledger
