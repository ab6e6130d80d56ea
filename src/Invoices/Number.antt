-- ===== src/Invoices/Number.antt =====
-- The text of a generated invoice number: `f"INV-{year_month}-{sequence:04d}"`.
use nestora_server.Prelude.{ℕ, zero, suc, ◌+◌, ◌/◌, ◌%◌, [], ◌∷◌, ◌++◌, ltb, if◌then◌else◌}
use nestora_server.Prelude.Text.{Text}

-- The decimal digits of a number, on fuel above it.
unfoldable pub digits_fuel : ℕ → ℕ → Text
digits_fuel zero n = []
digits_fuel (suc f) n =
    let rest = digits_fuel f (n / 10) ++ (48 + n % 10) ∷ [] in
    if ltb n 10 then (48 + n) ∷ [] else rest

unfoldable pub digits : ℕ → Text
unfolding digits_fuel
digits n = digits_fuel (suc n) n

-- `{n:04d}`: at least four digits, filled with zeros from the left.
unfoldable pub digits_04 : ℕ → Text
digits_04 n =
    if ltb n 10
    then 48 ∷ 48 ∷ 48 ∷ digits n
    else if ltb n 100
    then 48 ∷ 48 ∷ digits n
    else if ltb n 1000
    then 48 ∷ digits n
    else digits n

-- "INV-" and "-" as code points.
unfoldable pub invoice_number_text : Text → ℕ → Text
invoice_number_text year_month sequence = 73 ∷ 78 ∷ 86 ∷ 45 ∷ year_month ++ 45 ∷ digits_04 sequence
