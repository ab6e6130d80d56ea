-- ===== src/Wallet/Repository.antt =====
-- app/modules/wallet/repository.py: each query over the tables. `FOR UPDATE` only locks, and the
-- model runs one transaction at a time.
use nestora_server.Prelude.{
  ℕ, ◌+◌, String, Bool, true, false, Option, none, some, List, [], ◌∷◌, ◌&&◌, not, leb, ◌==◌,
  if◌then◌else◌,
}
use nestora_server.Prelude.Int.{ℤ, pos, ◌+ℤ◌, leb_ℤ}
use nestora_server.Prelude.Table.{first, update, insert, exists}
use nestora_server.Prelude.Text.{Text, text, text_eq, lower}
use nestora_server.Http.{Status, Exec, gets, modify, raise_if, ◌>>=◌, ◌>>◌}
use nestora_server.Wallet.Data.{
  Wallet, PaymentType, WalletTransaction, AccountStatus, AccountRow, UserDetail, UnitRow, BlockRow,
  AssessmentRule, Directory, Db, AssessmentAmount, resolve_assessment_amount,
}

-- WHERE account_id = :account_id AND COALESCE(is_deleted, 0) = 0
abbrev pub owned_by : ℕ → Wallet → Bool
owned_by account_id w = w.account_id == account_id && not w.is_deleted

abbrev pub has_id : ℕ → Wallet → Bool
has_id wallet_id w = w.id == wallet_id

unfoldable pub wallet : ℕ → Exec Db (Option Wallet)
wallet account_id = gets (λ s. first (owned_by account_id) s.wallets)

abbrev is_active : AccountStatus → Bool
is_active AccountStatus.active = true
is_active AccountStatus.inactive = false
is_active AccountStatus.suspended = false

-- SELECT account_id FROM accounts WHERE LOWER(email) = :email AND status = 'active' LIMIT 1
unfoldable pub find_by_email : Text → List AccountRow → Option ℕ
find_by_email email [] = none
find_by_email email (a ∷ rows) =
    if text_eq (lower a.email) (lower email) && is_active a.status
    then some a.account_id
    else find_by_email email rows

unfoldable pub account_id_by_email : Text → Exec Db (Option ℕ)
account_id_by_email email = gets (λ s. find_by_email email s.directory.accounts)

abbrev pub add_amount : ℤ → Wallet → Wallet
add_amount amount w = record w { balance = w.balance +ℤ amount }

-- `Numeric(12, 2)` holds at most ten digits before the point and two behind it.
abbrev largest_amount : ℤ
largest_amount = pos 999999999999

abbrev pub fits_column : ℤ → Bool
fits_column amount = leb_ℤ amount largest_amount && leb_ℤ (pos 0) (amount +ℤ largest_amount)

-- A row that the UPDATE would set out of the range of its column.
abbrev pub overflows : ℕ → ℤ → Wallet → Bool
overflows wallet_id amount w = has_id wallet_id w && not (fits_column (w.balance +ℤ amount))

-- The driver raises `DataError` on a number out of range, for which
-- `install_exception_handlers` of app/core/exceptions.py replies 500.
unfoldable pub update_balance : ℕ → ℤ → Exec Db Unit
update_balance wallet_id amount = do
  out_of_range ← gets (λ s. exists (overflows wallet_id amount) s.wallets)
  raise_if out_of_range Status.internal_server_error "Internal server error"
  modify (λ s. record s { wallets = update (has_id wallet_id) (add_amount amount) s.wallets })

unfoldable pub set_pin : ℕ → Text → Exec Db Unit
set_pin wallet_id pin = modify (λ s. record s {
  wallets = update (has_id wallet_id) (λ w. record w { security_pin = some pin }) s.wallets;
})

-- The row that `add_transaction` inserts.
abbrev pub new_transaction : ℕ → PaymentType → ℤ → Text → Db → WalletTransaction
new_transaction wallet_id payment_type amount description s = record {
  id = s.next_uuid;
  wallet_id = wallet_id;
  type = payment_type;
  amount = amount;
  status = "Completed";
  description = description;
  created_at = s.now;
  is_deleted = false;
}

unfoldable pub add_transaction : ℕ → PaymentType → ℤ → Text → Exec Db Unit
add_transaction wallet_id payment_type amount description = modify (λ s. record s {
  transactions =
      insert (new_transaction wallet_id payment_type amount description s) s.transactions;
  next_uuid = s.next_uuid + 1;
})

-- The description by which the dues of a month are found again.
abbrev pub dues_description : String
dues_description = "Maintenance Dues Paid"

-- type IN ('Debit', 'UPI')
abbrev pub is_payment : PaymentType → Bool
is_payment PaymentType.credit = false
is_payment PaymentType.debit = true
is_payment PaymentType.upi = true

unfoldable pub is_dues : ℕ → ℕ → WalletTransaction → Bool
is_dues wallet_id month_start t =
    t.wallet_id == wallet_id
    && is_payment t.type
    && text_eq t.description (text dues_description)
    && not t.is_deleted
    && leb month_start t.created_at

unfoldable pub dues_paid_this_month : ℕ → Exec Db Bool
dues_paid_this_month wallet_id = gets (λ s. exists (is_dues wallet_id s.month_start) s.transactions)

-- The row of the joined query. LEFT JOIN leaves its columns NULL where nothing matches.
record RateRow : Type 0 where
  rule : Option AssessmentRule
  is_rented : Bool

abbrev same : Option ℕ → ℕ → Bool
same none k = false
same (some j) k = j == k

abbrev or_else : Option ℕ → Option ℕ → Option ℕ
or_else none b = b
or_else (some a) b = some a

abbrev rate_row : Directory → UserDetail → RateRow
rate_row d ud =
    let unit = first (λ (u : UnitRow). same ud.unit_id u.id) d.units in
    let block =
      first (λ (b : BlockRow). same (elim unit [ none ↦ none | some u ↦ some u.block_id ]) b.id)
        d.blocks in
    let association =
      first
        (λ (a : ℕ).
          same
            (or_else ud.association_id
              (elim block [ none ↦ none | some b ↦ some b.association_id ]))
            a)
        d.associations in
    record {
      rule = first (λ (r : AssessmentRule). same association r.association_id) d.assessment_rules;
      is_rented = elim unit [
        | none ↦ false
        | some u ↦ elim u.is_rented [ none ↦ false | some b ↦ b ]
      ];
    }

-- JOIN user_details ON … LIMIT 1: the first account row that has a live detail row.
find_detail : Directory → ℕ → List AccountRow → Option UserDetail
find_detail d account_id [] = none
find_detail d account_id (ac ∷ acs) =
    let rest = find_detail d account_id acs in
    if ac.account_id == account_id
    then elim (first (λ ud. same ac.user_id ud.user_id && not ud.is_deleted) d.user_details) [
      | none ↦ rest
      | some ud ↦ some ud
    ]
    else rest

rule_amount : Option AssessmentRule → Bool → Option AssessmentAmount
rule_amount none is_rented = none
rule_amount (some r) is_rented = elim r.default_amount [
  | none ↦ none
  | some d ↦ some (
      resolve_assessment_amount (some d) r.is_advanced_enabled r.owner_occupied_amount
        r.rented_amount is_rented)
]

unfoldable pub find_rate : ℕ → Directory → Option AssessmentAmount
unfolding find_detail rule_amount
find_rate account_id d = elim (find_detail d account_id d.accounts) [
  | none ↦ none
  | some ud ↦ let row = rate_row d ud in rule_amount row.rule row.is_rented
]

-- `assessment_amount`: the rate of the account's unit and association, not of the client.
unfoldable pub assessment_amount : ℕ → Exec Db (Option AssessmentAmount)
assessment_amount account_id = gets (λ s. find_rate account_id s.directory)
