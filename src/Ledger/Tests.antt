-- ===== src/Ledger/Tests.antt =====
-- Runs of the ledger, and its theorems at accounts of Ann, Ben and Cal.
use hexastack.Base.{
  ℕ, zero, suc, String, String_discrete, ◌≡◌, ◌≢◌, refl, some, List, [], ◌∷◌, inl, inr, arith,
}
use hexastack.Base.Int.{ℤ, pos, ◌+ℤ◌, ◌-ℤ◌}
use hexastack.Base.Outcome.{Outcome, returned, raised, insufficient_funds, concurrency_conflict}
use hexastack.Dict.{lookup, string_key}
use hexastack.Ledger.Account.{Account, active, apply_entry, assert_active, posted, new_entry}
use hexastack.Ledger.Journal.{new_transaction, check_currencies, curr_debits, curr_credits}
use hexastack.Ledger.Repository.{save, save_all, preflight, save_transaction}
use hexastack.Ledger.Handlers.{
  TransferMoneyCommand, PostingLineDto, RecordTransactionCommand, Repositories, Prepared,
  create_account, freeze_account, move_money, prepare_transfer, commit, transfer,
}
use hexastack.Ledger.Recording.{
  posting_entries, load_accounts, apply_entries, prepare_recording, record_transaction,
}
use hexastack.Ledger.Totals.{total}
use hexastack.Ledger.Invariant.{
  Call, transferring, recording, freezing, step, run, IsValid, run-IsValid, run-conserves,
}
use hexastack.Ledger.Concurrency.{commit-conflicts}
use hexastack.Ledger.Freezing.{freeze_account-blocks}

program : Unit {0}
unfolding apply_entry assert_active posted new_entry new_transaction check_currencies curr_debits
    curr_credits save save_all preflight save_transaction create_account freeze_account move_money
    prepare_transfer commit transfer posting_entries load_accounts apply_entries prepare_recording
    record_transaction step run ◌+ℤ◌ ◌-ℤ◌ String_discrete
program = tt

abbrev account : String → ℤ → Account
account id balance = record {
  account_id = id;
  tenant_id = "t";
  owner_id = "o";
  currency = "USD";
  balance = balance;
  credit_limit = pos 10;
  status = active;
  version = 0;
}

abbrev book : Repositories
book = record {
  accounts =
      ("ann", account "ann" (pos 100))
      ∷ ("ben", account "ben" (pos 0))
      ∷ ("cal", account "cal" (pos 5))
      ∷ [];
  ledger = record { transactions = []; account_entries = [] };
}

abbrev uuid : ℕ → String
uuid zero = "0"
uuid (suc zero) = "1"
uuid (suc (suc n)) = "2"

abbrev uuid' : ℕ → String
uuid' zero = "3"
uuid' (suc zero) = "4"
uuid' (suc (suc n)) = "5"

abbrev pay : String → String → ℕ → TransferMoneyCommand
pay source dest n = record {
  source_account_id = source;
  destination_account_id = dest;
  amount = pos n;
  reference = "r";
  description = "d";
  currency = "USD";
}

transfer_runs :
    (total "USD" (transfer uuid (pay "ann" "ben" 30) book).1.accounts ≡ pos 105)
    × ((transfer uuid (pay "ben" "ann" 30) book).0 ≡ raised insufficient_funds)
    × ((transfer uuid (pay "ben" "ann" 10) book).0 ≡ returned tt)
unfolding program
transfer_runs = (refl, refl, refl)

abbrev line : String → String → ℕ → PostingLineDto
line id direction n = record {
  account_id = id;
  direction = direction;
  amount = pos n;
  currency = "USD";
}

abbrev split_bill : RecordTransactionCommand
split_bill = record {
  reference = "r";
  description = "d";
  entries = line "ann" "DEBIT" 20 ∷ line "ann" "DEBIT" 5 ∷ line "ben" "CREDIT" 25 ∷ [];
}

record_runs : (record_transaction uuid split_bill book).0 ≡ returned tt
unfolding program
record_runs = refl

abbrev after : Outcome Prepared → Repositories → Repositories
after (returned p) r = (commit p r).1
after _ r = r

-- Cal pays Ann while the transaction above is being worked out. It posts twice to Ann's account, so its
-- version passes the check, and what Cal has paid is lost.
lost_update :
    let slow = prepare_recording uuid split_bill book.accounts in
    let quick = prepare_transfer uuid' (pay "cal" "ann" 3) book.accounts in
    total "USD" (after slow (after quick book)).accounts ≡ pos 102
unfolding program
lost_update = refl

book-IsValid : IsValid book.accounts
unfolding ◌-ℤ◌
book-IsValid = record {
  keyed = (refl, (refl, (refl, tt)));
  solvent = (omega arith, (omega arith, (omega arith, tt)));
}

abbrev calls : List Call
calls = transferring uuid (pay "ann" "ben" 30) ∷ freezing "cal" ∷ recording uuid' split_bill ∷ []

run-IsValid_example : IsValid (run calls book).accounts
run-IsValid_example = run-IsValid calls book book-IsValid

run-conserves_example : total "USD" (run calls book).accounts ≡ total "USD" book.accounts
run-conserves_example = run-conserves "USD" calls book book-IsValid

abbrev prepared : Outcome Prepared → Prepared
prepared (returned p) = p
prepared _ = record {
  changed = [];
  tx = record { reference = ""; description = ""; entries = []; transaction_id = "" };
}

abbrev first : Prepared
first = prepared (prepare_transfer uuid (pay "ann" "ben" 30) book.accounts)

abbrev second : Prepared
second = prepared (prepare_transfer uuid' (pay "cal" "ann" 3) book.accounts)

first_prepared : prepare_transfer uuid (pay "ann" "ben" 30) book.accounts ≡ returned first
unfolding program
first_prepared = refl

second_prepared : prepare_transfer uuid' (pay "cal" "ann" 3) book.accounts ≡ returned second
unfolding program
second_prepared = refl

first_commits : (commit first book).0 ≡ returned tt
unfolding program
first_commits = refl

commit-conflicts_example :
    commit second (commit first book).1 ≡ (raised concurrency_conflict, (commit first book).1)
commit-conflicts_example =
    commit-conflicts uuid uuid' (pay "ann" "ben" 30) (pay "cal" "ann" 3) book first second "ann"
      book-IsValid.keyed first_prepared second_prepared (inl refl) (inr refl) first_commits

ben_known : lookup "ben" book.accounts ≡ some (account "ben" (pos 0))
unfolding program
ben_known = refl

freeze_account-blocks_example :
    let frozen_book = (freeze_account "ben" book).1 in
    ((transfer uuid (pay "ann" "ben" 30) frozen_book).0 ≢ returned tt)
    × ((transfer uuid (pay "ann" "ben" 30) frozen_book).1 ≡ frozen_book)
freeze_account-blocks_example =
    freeze_account-blocks uuid (pay "ann" "ben" 30) "ben" (account "ben" (pos 0)) book
      book-IsValid.keyed ben_known (inr refl)
