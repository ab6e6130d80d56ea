-- ===== src/Wallet/Ledger.antt =====
-- The books of the wallets: what the recorded transactions of a wallet add up to, and how posting
-- one moves a balance and that sum together.
use nestora_server.Prelude.{ℕ, ◌≡◌, List, [], ◌∷◌, ◌==◌, arith, if◌then◌else◌}
use nestora_server.Prelude.Int.{ℤ, pos, ◌+ℤ◌, ◌-ℤ◌, int_laws}
use nestora_server.Prelude.Table.{All, update, insert}
use nestora_server.Wallet.Data.{Wallet, PaymentType, WalletTransaction}
use nestora_server.Wallet.Repository.{has_id, add_amount}

-- What a transaction adds to its wallet: a UPI payment is made outside the wallet.
abbrev pub effect : PaymentType → ℤ → ℤ
effect PaymentType.credit amount = amount
effect PaymentType.debit amount = pos 0 -ℤ amount
effect PaymentType.upi amount = pos 0

-- The net effect of the recorded transactions on the wallet `k`.
unfoldable pub net : ℕ → List WalletTransaction → ℤ
net k [] = pos 0
net k (t ∷ ts) = (if t.wallet_id == k then effect t.type t.amount else pos 0) +ℤ net k ts

pub net-insert :
    (k : ℕ) (t : WalletTransaction) (ts : List WalletTransaction)
    → net k (insert t ts) ≡ net k ts +ℤ (if t.wallet_id == k then effect t.type t.amount else pos 0)
unfolding net
net-insert k t [] = omega int_laws
net-insert k t (u ∷ ts) = rw (net-insert k t ts) (omega int_laws)

-- Every wallet's balance is what `f` says of its id.
abbrev pub Tracks : (ℕ → ℤ) → List Wallet → Type 0
Tracks f = All (λ w. w.balance ≡ f w.id)

abbrev pub bump : (ℕ → ℤ) → ℕ → ℤ → ℕ → ℤ
bump f k d i = if k == i then f i +ℤ d else f i

pub Tracks-update :
    (f : ℕ → ℤ) (k : ℕ) (d : ℤ) (ws : List Wallet)
    → Tracks f ws
    → Tracks (bump f k d) (update (has_id k) (add_amount d) ws)
unfolding update
Tracks-update f k d [] h = tt
Tracks-update f k d (w ∷ ws) h = (ground arith, Tracks-update f k d ws h.1)

pub Tracks-eq : (f g : ℕ → ℤ) (ws : List Wallet) → ((i : ℕ) → f i ≡ g i) → Tracks f ws → Tracks g ws
Tracks-eq f g [] e h = tt
Tracks-eq f g (w ∷ ws) e h = (ground (arith, e w.id), Tracks-eq f g ws e h.1)
