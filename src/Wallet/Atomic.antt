-- ===== src/Wallet/Atomic.antt =====
-- The transaction around a wallet request (app/modules/wallet/router.py).
use nestora_server.Prelude.{◌≡◌, inl, inr, subst, arith}
use nestora_server.Http.{Result-cases, ok, unit_of_work}
use nestora_server.Account.{Account}
use nestora_server.Wallet.Data.{Db, Mutation}
use nestora_server.Wallet.Handler.{Request, execute, handle}

-- What holds before a request, and after it where its service method returns, holds after it in any
-- case: what a method has written before it raises is rolled back.
pub handle_keeps :
    (P : Db → Type 0) (account : Account) (request : Request) (s : Db)
    → P s
    → ((r : Mutation) → (execute account request s).0 ≡ ok r → P (execute account request s).1)
    → P (handle account request s).1
unfolding handle unit_of_work
handle_keeps P account request s before after = elim (Result-cases (execute account request s).0) [
  | inl (e, raised) ↦
      let undone : s ≡ (handle account request s).1 = ground arith in subst P undone before
  | inr (r, returned) ↦
      let kept : (execute account request s).1 ≡ (handle account request s).1 = ground arith in
      subst P kept (after r returned)
]
