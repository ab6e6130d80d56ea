-- ===== src/Http.antt =====
-- Handlers that read and write the database and may raise `HTTPException` (fastapi), and the
-- transaction around them (app/db/unit_of_work.py).
use nestora_server.Prelude.{
  ◌≡◌, refl, ◌⊎◌, inl, inr, String, Bool, Option, none, some, if◌then◌else◌,
}

-- The status codes that the modelled services raise.
pub data Status : Type 0 where
  bad_request forbidden not_found conflict unprocessable_content internal_server_error : Status

pub record HttpException : Type 0 where
  pub status_code : Status
  pub detail : String

pub data Result {ℓ} (A : Type ℓ) : Type ℓ where
  ok : A → Result A
  err : HttpException → Result A

-- What was written before a raise stays in the session until the transaction ends, so the state
-- comes back beside the error too.
abbrev pub Exec {ℓ} : Type ℓ → Type ℓ → Type ℓ
Exec S A = S → Result A × S

module _ {ℓ} {S A : Type ℓ} where
  abbrev pub pure : A → Exec S A
  pure a s = (ok a, s)

  abbrev pub raise : Status → String → Exec S A
  raise c d s = (err (record { status_code = c; detail = d }), s)

  abbrev pub gets : (S → A) → Exec S A
  gets f s = (ok (f s), s)

  -- `if found is None: raise …`
  abbrev pub or_raise : Option A → Status → String → Exec S A
  or_raise none c d = raise c d
  or_raise (some a) c d = pure a

infixl 5 ◌>>=◌ ◌>>◌
abbrev pub ◌>>=◌ {ℓ} : {S A B : Type ℓ} → Exec S A → (A → Exec S B) → Exec S B
◌>>=◌ m f s = let (r, s') = m s in elim r [ ok a ↦ f a s' | err e ↦ (err e, s') ]

abbrev pub ◌>>◌ {ℓ} : {S A B : Type ℓ} → Exec S A → Exec S B → Exec S B
m >> k = m >>= λ _. k

-- `if test: raise HTTPException(…)`
abbrev pub raise_if : {S : Type 0} → Bool → Status → String → Exec S (Unit {0})
raise_if b c d s = (if b then err (record { status_code = c; detail = d }) else ok tt, s)

abbrev pub modify : {S : Type 0} → (S → S) → Exec S (Unit {0})
modify f s = (ok tt, f s)

-- `async with UnitOfWork(session)`: commit when the body returns, roll back when it raises.
unfoldable pub unit_of_work {ℓ} : {S A : Type ℓ} → Exec S A → Exec S A
unit_of_work m s = let (r, s') = m s in elim r [ ok a ↦ (ok a, s') | err e ↦ (err e, s) ]

pub Result-cases {ℓ} :
    {A : Type ℓ} (r : Result A) → ((e : HttpException) × (r ≡ err e)) ⊎ ((a : A) × (r ≡ ok a))
Result-cases (ok a) = inr (a, refl)
Result-cases (err e) = inl (e, refl)
