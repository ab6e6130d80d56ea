-- ===== src/Wallet/Examples.antt =====
-- A small database, runs on it, and the theorems at it.
use nestora_server.Prelude.{ℕ, ◌≡◌, refl, true, false, some, none, List, [], ◌∷◌, ◌==◌, arith}
use nestora_server.Prelude.Int.{ℤ, pos, ◌+ℤ◌, ◌-ℤ◌}
use nestora_server.Prelude.Table.{first, update, exists}
use nestora_server.Prelude.Text.{Text, text_eq, lower, lower_char}
use nestora_server.Http.{ok, err, HttpException, Status}
use nestora_server.Account.{Account, account_role}
use nestora_server.Wallet.Data.{
  Wallet, Db, Directory, AccountStatus, SendMoneyRequest, resolve_assessment_amount,
}
use nestora_server.Wallet.Repository
use nestora_server.Wallet.Repository.{
  has_id, add_amount, owned_by, find_by_email, find_rate, is_dues,
}
use nestora_server.Wallet.Service
use nestora_server.Wallet.Service.{wrong_pin}
use nestora_server.Wallet.Handler.{Request, execute, serve}
use nestora_server.Wallet.Ledger.{net}
use nestora_server.Wallet.Sound.{IsSound, serve-IsSound}
use nestora_server.Wallet.Transfer.{total, send_money-total, Transferred, send_money-Transferred}
use nestora_server.Wallet.Dues.{dues_once}

abbrev mail_a : Text
mail_a = 97 ∷ []

abbrev mail_b : Text
mail_b = 98 ∷ []

abbrev resident : Account
resident = record { id = 1; role = some "homeowner"; user_id = some 11; email = mail_a }

abbrev neighbour : Account
neighbour = record { id = 2; role = some "tenant"; user_id = some 12; email = mail_b }

abbrev directory : Directory
directory = record {
  accounts =
      record { account_id = 1; user_id = some 11; email = mail_a; status = AccountStatus.active }
      ∷ record { account_id = 2; user_id = some 12; email = mail_b; status = AccountStatus.active }
      ∷ [];
  user_details =
      record { user_id = 11; unit_id = some 21; association_id = none; is_deleted = false }
      ∷ record { user_id = 12; unit_id = none; association_id = some 41; is_deleted = false }
      ∷ [];
  units = record { id = 21; block_id = 31; is_rented = some true } ∷ [];
  blocks = record { id = 31; association_id = 41 } ∷ [];
  associations = 41 ∷ [];
  assessment_rules =
      record {
        association_id = 41;
        default_amount = some (pos 1500);
        is_advanced_enabled = true;
        owner_occupied_amount = some (pos 1200);
        rented_amount = some (pos 1800);
      }
      ∷ [];
}

abbrev pin_a : Text
pin_a = 49 ∷ 49 ∷ 49 ∷ 49 ∷ []

abbrev wallets : List Wallet
wallets =
    record {
      id = 51;
      account_id = 1;
      balance = pos 5000;
      reward_points = none;
      security_pin = some pin_a;
      is_deleted = false;
    }
    ∷ record {
      id = 52;
      account_id = 2;
      balance = pos 100;
      reward_points = none;
      security_pin = none;
      is_deleted = false;
    }
    ∷ []

abbrev db : Db
db = record {
  directory = directory;
  wallets = wallets;
  transactions = [];
  now = 40;
  month_start = 31;
  next_uuid = 100;
}

abbrev transfer : SendMoneyRequest
transfer = record { recipient_email = mail_b; amount = pos 700; pin = pin_a; purpose = none }

abbrev pay : Request
pay = Request.pay_dues (record { amount = pos 1800; pin = pin_a })

abbrev pay_by_upi : Request
pay_by_upi = Request.pay_dues_upi (record { amount = pos 1800 })

-- The dues of a resident of a rented unit are the rented rate.
pay_succeeds :
    (execute resident pay db).0
    ≡ ok (record { message = "Dues paid successfully."; balance = some (pos 3200) })
unfolding execute Service.pay_dues Service.require_assessment Service.validate_debit
    Service.require_wallet Service.require_role Service.wrong_pin Repository.wallet
    Repository.assessment_amount Repository.find_rate Repository.dues_paid_this_month
    Repository.update_balance Repository.add_transaction ◌+ℤ◌ account_role first update exists
    text_eq resolve_assessment_amount ◌-ℤ◌ is_dues
pay_succeeds = refl

transfer_succeeds :
    (Service.send_money resident transfer db).0
    ≡ ok (record { message = "Money sent successfully."; balance = some (pos 4300) })
unfolding Service.send_money Service.validate_debit Service.require_wallet Service.require_role
    Service.wrong_pin Repository.wallet Repository.account_id_by_email Repository.find_by_email
    Repository.update_balance Repository.add_transaction ◌+ℤ◌ account_role first update text_eq
    lower lower_char ◌-ℤ◌ exists
transfer_succeeds = refl

abbrev overdraft : Request
overdraft = Request.send_money (record transfer { amount = pos 9000 })

overdraft_raises :
    (execute resident overdraft db).0
    ≡ err (record { status_code = Status.bad_request; detail = "Insufficient wallet balance." })
unfolding execute Service.send_money Service.validate_debit Service.require_wallet
    Service.require_role Service.wrong_pin Repository.wallet account_role first text_eq
overdraft_raises = refl

abbrev opening : ℕ → ℤ
opening i = elim (i == 51) [ true ↦ pos 5000 | false ↦ pos 100 ]

db-IsSound : IsSound opening db
unfolding net ◌+ℤ◌
db-IsSound = record { accounted = (refl, (refl, tt)); nonneg = omega arith }

abbrev day : List (Account × Request)
day = (resident, pay) ∷ (resident, overdraft) ∷ (resident, Request.send_money transfer) ∷ []

serve-IsSound_example : IsSound opening (serve day db)
serve-IsSound_example = serve-IsSound opening day db (omega arith) db-IsSound

send_money-total_example : total (Service.send_money resident transfer db).1.wallets ≡ total wallets
send_money-total_example =
    send_money-total resident transfer db _ ((refl, tt), (tt, tt)) transfer_succeeds

send_money-Transferred_example :
    Transferred resident transfer db (Service.send_money resident transfer db).1
send_money-Transferred_example =
    send_money-Transferred resident transfer db _ ((refl, tt), (tt, tt)) transfer_succeeds

dues_once_example :
    (e : HttpException) × ((execute resident pay_by_upi (serve day (execute resident pay db).1)).0
      ≡ err e)
dues_once_example = dues_once resident pay day pay_by_upi db _ tt tt (omega arith) pay_succeeds
