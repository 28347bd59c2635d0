-- ===== src/Ledger/Transfers.antt =====
-- What the two handlers of transactions compute before they save anything.
use mathlib.Core.Path.{subst}
use hexastack.Base.{
  ℕ, String, ◌≡◌, ◌≢◌, ap, ◌∙◌, same_str, some, List, [], ◌∷◌, arith, not, ◌||◌, length,
}
use hexastack.Base.Int.{pos, ◌≤ℤ◌, leb_ℤ}
use hexastack.Base.Outcome.{
  returned, raise_if, required, bind-elim, invalid_amount, account_not_found,
}
use hexastack.Dict.{lookup, values, string_key}
use hexastack.Ledger.Account.{
  Account, TransactionEntry, debit, credit, new_entry, apply_entry, Posts, apply_entry-Posts,
}
use hexastack.Ledger.Journal.{new_transaction, net, new_transaction_balanced}
use hexastack.Ledger.Repository.{Storage, get_by_id}
use hexastack.Ledger.Handlers.{
  TransferMoneyCommand, RecordTransactionCommand, Prepared, prepare_transfer, move_money, entry_for,
}
use hexastack.Ledger.Recording.{
  posting_entries, load_accounts, apply_entries, prepare_recording, several_tenants,
}
use hexastack.Ledger.Postings.{required-found}

pub returned-changed : (a p : Prepared) → returned a ≡ returned p → p.changed ≡ a.changed
returned-changed a p h = ground arith

returned-entry : (a b : TransactionEntry) → returned a ≡ returned b → a ≡ b
returned-entry a b h = ground arith

-- What a transfer has computed from the two accounts that it has found.
pub record Moves (cmd : TransferMoneyCommand) (source dest : Account) (p : Prepared) : Type 0 where
  pub debit_entry : TransactionEntry
  pub credit_entry : TransactionEntry
  pub source' : Account
  pub dest' : Account
  pub positive : (pos 0 ≤ℤ debit_entry.amount) × (pos 0 ≤ℤ credit_entry.amount)
  pub debited : Posts debit_entry source source'
  pub credited : Posts credit_entry dest dest'
  pub balanced : (curr : String) → net curr (debit_entry ∷ credit_entry ∷ []) ≡ pos 0
  pub both : p.changed ≡ source' ∷ dest' ∷ []

pub new_entry-positive : (e e' : TransactionEntry) → new_entry e ≡ returned e' → pos 0 ≤ℤ e'.amount
unfolding new_entry
new_entry-positive e e' h =
    bind-elim (raise_if (leb_ℤ e.amount (pos 0)) invalid_amount) _ h
      λ u q k. subst (λ z. pos 0 ≤ℤ z.amount) (returned-entry e e' k) (ground arith)

move_money-Moves :
    (uuid : ℕ → String) (cmd : TransferMoneyCommand) (source dest : Account) (p : Prepared)
    → move_money uuid cmd source dest ≡ returned p
    → Moves cmd source dest p
unfolding move_money
move_money-Moves uuid cmd source dest p h =
    bind-elim (raise_if (not (same_str source.tenant_id dest.tenant_id)) invalid_amount) _ h
      λ u q1 h1.
        bind-elim
          (raise_if
            (not (same_str source.currency cmd.currency)
              || not (same_str dest.currency cmd.currency))
            invalid_amount)
          _ h1
          λ v q2 h2.
            bind-elim (new_entry (entry_for source debit cmd (uuid 0))) _ h2 λ debit_entry q3 h3.
              bind-elim (new_entry (entry_for dest credit cmd (uuid 1))) _ h3 λ credit_entry q4 h4.
                bind-elim (apply_entry debit_entry source) _ h4 λ source' q5 h5.
                  bind-elim (apply_entry credit_entry dest) _ h5 λ dest' q6 h6.
                    bind-elim
                      (new_transaction (record {
                        reference = cmd.reference;
                        description = cmd.description;
                        entries = debit_entry ∷ credit_entry ∷ [];
                        transaction_id = uuid 2;
                      }))
                      _ h6
                      λ tx q7 h7.
                        let (same_tx, even) = new_transaction_balanced _ tx q7 in
                        record {
                          debit_entry = debit_entry;
                          credit_entry = credit_entry;
                          source' = source';
                          dest' = dest';
                          positive = (
                            new_entry-positive _ debit_entry q3,
                            new_entry-positive _ credit_entry q4,
                          );
                          debited = apply_entry-Posts debit_entry source source' q5;
                          credited = apply_entry-Posts credit_entry dest dest' q6;
                          balanced =
                              λ curr. ap (net curr) (ap (λ t. t.entries) same_tx) ∙ even curr;
                          both = returned-changed _ p h7;
                        }

-- The accounts are there, and are two.
pub record Found (cmd : TransferMoneyCommand) (s : Storage) (source dest : Account) : Type 0 where
  pub distinct : cmd.source_account_id ≢ cmd.destination_account_id
  pub at_source : lookup cmd.source_account_id s ≡ some source
  pub at_dest : lookup cmd.destination_account_id s ≡ some dest

pub prepare_transfer-Moves :
    (uuid : ℕ → String) (cmd : TransferMoneyCommand) (s : Storage) (p : Prepared)
    → prepare_transfer uuid cmd s ≡ returned p
    → (source : Account) × (dest : Account) × Found cmd s source dest × Moves cmd source dest p
unfolding prepare_transfer
prepare_transfer-Moves uuid cmd s p h =
    bind-elim (raise_if (leb_ℤ cmd.amount (pos 0)) invalid_amount) _ h λ u q1 h1.
      bind-elim
        (raise_if (same_str cmd.source_account_id cmd.destination_account_id) invalid_amount) _ h1
        λ v q2 h2.
          bind-elim (required account_not_found (get_by_id cmd.source_account_id s)) _ h2
            λ source q3 h3.
              bind-elim (required account_not_found (get_by_id cmd.destination_account_id s)) _ h3
                λ dest q4 h4. (
                  source,
                  dest,
                  record {
                    distinct = λ same. ground arith;
                    at_source = required-found _ _ source q3;
                    at_dest = required-found _ _ dest q4;
                  },
                  move_money-Moves uuid cmd source dest p h4,
                )

-- What a recorded transaction has computed.
pub record Records (uuid : ℕ → String) (cmd : RecordTransactionCommand) (s : Storage) (p : Prepared)
    : Type 0 where
  pub entries : List TransactionEntry
  pub loaded : Storage
  pub applied : Storage
  pub built : posting_entries uuid 0 cmd.entries ≡ returned entries
  pub balanced : (curr : String) → net curr entries ≡ pos 0
  pub loading : load_accounts entries [] s ≡ returned loaded
  pub applying : apply_entries entries loaded ≡ returned applied
  pub all_changed : p.changed ≡ values applied

pub prepare_recording-Records :
    (uuid : ℕ → String) (cmd : RecordTransactionCommand) (s : Storage) (p : Prepared)
    → prepare_recording uuid cmd s ≡ returned p
    → Records uuid cmd s p
unfolding prepare_recording
prepare_recording-Records uuid cmd s p h =
    bind-elim (posting_entries uuid 0 cmd.entries) _ h λ entries q1 h1.
      bind-elim
        (new_transaction (record {
          reference = cmd.reference;
          description = cmd.description;
          entries = entries;
          transaction_id = uuid (length entries);
        }))
        _ h1
        λ tx q2 h2. bind-elim (load_accounts entries [] s) _ h2 λ loaded q3 h3.
          bind-elim (raise_if (several_tenants (values loaded)) invalid_amount) _ h3 λ u q4 h4.
            bind-elim (apply_entries entries loaded) _ h4 λ applied q5 h5.
              let (same_tx, even) = new_transaction_balanced _ tx q2 in
              record {
                entries = entries;
                loaded = loaded;
                applied = applied;
                built = q1;
                balanced = λ curr. ap (net curr) (ap (λ t. t.entries) same_tx) ∙ even curr;
                loading = q3;
                applying = q5;
                all_changed = returned-changed _ p h5;
              }
