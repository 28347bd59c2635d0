-- ===== src/Ledger/Repository.antt =====
-- adapters/driven/database.py. Accounts and transactions are values, so a deep copy is the value itself.
use hexastack.Base.{
  String, Bool, true, false, not, if◌then◌else◌, same_str, Option, none, some, List, [], ◌∷◌, ◌++◌,
  leb, ◌||◌, ◌&&◌,
}
use hexastack.Base.Int.{same_ℤ}
use hexastack.Base.Outcome.{Outcome, Done, returned, raised, raise_if, ◌>>=◌, concurrency_conflict}
use hexastack.Dict.{Dict, lookup, insert, string_key}
use hexastack.Ledger.Account.{Account, TransactionEntry, EntryDirection, debit, credit}
use hexastack.Ledger.Journal.{JournalTransaction}

-- `_storage` of `InMemoryAccountRepository`
abbrev pub Storage : Type 0
Storage = Dict String Account

-- `existing is not None and existing.version >= account.version`
abbrev pub outdated : Option Account → Account → Bool
outdated none a = false
outdated (some existing) a = leb a.version existing.version

abbrev pub get_by_id : String → Storage → Option Account
get_by_id id s = lookup id s

unfoldable pub save : Account → Storage → Outcome Storage
save a s = raise_if (outdated (lookup a.account_id s) a) concurrency_conflict >>= λ _.
    returned (insert a.account_id a s)

-- The two loops of `save_all`.
unfoldable pub preflight : List Account → Storage → Done
preflight [] s = returned tt
preflight (a ∷ rest) s =
    raise_if (outdated (lookup a.account_id s) a) concurrency_conflict >>= λ _. preflight rest s

abbrev pub store_all : List Account → Storage → Storage
store_all [] s = s
store_all (a ∷ rest) s = store_all rest (insert a.account_id a s)

unfoldable pub save_all : List Account → Storage → Outcome Storage
unfolding preflight
save_all accounts s = preflight accounts s >>= λ _. returned (store_all accounts s)

-- `InMemoryLedgerRepository`
pub record Ledger : Type 0 where
  pub transactions : Dict String JournalTransaction
  pub account_entries : Dict String (List TransactionEntry)

abbrev same_direction : EntryDirection → EntryDirection → Bool
same_direction debit debit = true
same_direction credit credit = true
same_direction debit credit = false
same_direction credit debit = false

-- `==` on entries and on tuples of entries.
abbrev same_entry : TransactionEntry → TransactionEntry → Bool
same_entry e f =
    same_str e.account_id f.account_id
    && same_direction e.direction f.direction
    && same_ℤ e.amount f.amount
    && same_str e.entry_id f.entry_id
    && same_str e.currency f.currency

abbrev same_entries : List TransactionEntry → List TransactionEntry → Bool
same_entries [] [] = true
same_entries [] (f ∷ fs) = false
same_entries (e ∷ es) [] = false
same_entries (e ∷ es) (f ∷ fs) = same_entry e f && same_entries es fs

abbrev pub entries_of : Option (List TransactionEntry) → List TransactionEntry
entries_of none = []
entries_of (some es) = es

-- The loop that files each entry under its account.
abbrev pub file_entries :
    List TransactionEntry
    → Dict String (List TransactionEntry)
    → Dict String (List TransactionEntry)
file_entries [] d = d
file_entries (e ∷ es) d =
    file_entries es (insert e.account_id (entries_of (lookup e.account_id d) ++ e ∷ []) d)

-- `save_transaction` when the identifier is known, and when it is new.
abbrev save_found : Option JournalTransaction → JournalTransaction → Ledger → Done × Ledger
save_found (some existing) t l =
    if not (same_str existing.reference t.reference)
      || not (same_entries existing.entries t.entries)
    then (raised concurrency_conflict, l)
    else (returned tt, l)
save_found none t l = (
  returned tt,
  record {
    transactions = insert t.transaction_id t l.transactions;
    account_entries = file_entries t.entries l.account_entries;
  },
)

unfoldable pub save_transaction : JournalTransaction → Ledger → Done × Ledger
save_transaction t l = save_found (lookup t.transaction_id l.transactions) t l

pub get_transaction : String → Ledger → Option JournalTransaction
get_transaction id l = lookup id l.transactions

abbrev pub get_entries_for_account : String → Ledger → List TransactionEntry
get_entries_for_account id l = entries_of (lookup id l.account_entries)
