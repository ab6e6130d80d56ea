-- ===== src/Wallet/Checks.antt =====
-- The reading steps of app/modules/wallet/service.py: what they establish when they return, and
-- that they write nothing.
use nestora_server.Prelude.{◌≡◌, inl, inr, Option-cases, true, false, some, arith}
use nestora_server.Prelude.Int.{ℤ, pos, ◌≤ℤ◌, ◌<ℤ◌, eqb_ℤ, eq_of_parts}
use nestora_server.Prelude.Table.{first}
use nestora_server.Prelude.Text.{Text}
use nestora_server.Http.{ok}
use nestora_server.Account.{Account}
use nestora_server.Wallet.Data.{Wallet, AssessmentAmount, Db}
use nestora_server.Wallet.Repository
use nestora_server.Wallet.Repository.{owned_by, find_rate}
use nestora_server.Wallet.Service.{
  require_role, require_wallet, wrong_pin, validate_debit, require_assessment,
}

eqb→eq : (a b : ℤ) → eqb_ℤ a b ≡ true → a ≡ b
eqb→eq a b h = ground (arith, eq_of_parts a b)

-- The amount is the configured rate of the account, and is positive.
pub record IsRate (account : Account) (s : Db) (amount : ℤ) : Type 0 where
  pub rate : AssessmentAmount
  pub configured : find_rate account.id s.directory ≡ some rate
  pub same : amount ≡ rate.amount
  pub positive : pos 0 <ℤ amount

module _ (account : Account) (s : Db) where
  pub require_wallet_state : (require_wallet account s).1 ≡ s
  unfolding require_wallet require_role Repository.wallet
  require_wallet_state = ground arith

  pub require_wallet_found :
      (w : Wallet)
      → (require_wallet account s).0 ≡ ok w
      → first (owned_by account.id) s.wallets ≡ some w
  unfolding require_wallet require_role Repository.wallet
  require_wallet_found w h = ground arith

  pub validate_debit_state : (pin : Text) (amount : ℤ) → (validate_debit account pin amount s).1 ≡ s
  unfolding validate_debit
  validate_debit_state pin amount = ground (arith, require_wallet_state)

  pub validate_debit_lem :
      (pin : Text) (amount : ℤ) (w : Wallet)
      → (validate_debit account pin amount s).0 ≡ ok w
      → (first (owned_by account.id) s.wallets ≡ some w)
        × (amount ≤ℤ w.balance)
        × (wrong_pin w.security_pin pin ≡ false)
  unfolding validate_debit
  validate_debit_lem pin amount w h = ground (arith, require_wallet_found w, require_wallet_state)

  pub require_assessment_state : (supplied : ℤ) → (require_assessment account supplied s).1 ≡ s
  unfolding require_assessment Repository.assessment_amount
  require_assessment_state supplied = ground arith

  -- What is returned is the supplied amount.
  pub require_assessment_amount :
      (supplied amount : ℤ)
      → (require_assessment account supplied s).0 ≡ ok amount
      → supplied ≡ amount
  unfolding require_assessment Repository.assessment_amount
  require_assessment_amount supplied amount h =
      elim (Option-cases (find_rate account.id s.directory)) [
        | inl missing ↦ absurd (ground arith)
        | inr (a, e) ↦ ground (arith, eqb→eq supplied a.amount)
      ]

  pub assessed_amount :
      (supplied amount : ℤ)
      → (require_assessment account supplied s).0 ≡ ok amount
      → IsRate account s supplied
  unfolding require_assessment Repository.assessment_amount
  assessed_amount supplied amount h = elim (Option-cases (find_rate account.id s.directory)) [
    | inl missing ↦ absurd (ground arith)
    | inr (a, e) ↦
        let same : supplied ≡ a.amount = ground (arith, eqb→eq supplied a.amount) in
        record { rate = a; configured = e; same = same; positive = ground arith }
  ]
