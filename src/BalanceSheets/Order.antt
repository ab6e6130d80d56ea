-- ===== src/BalanceSheets/Order.antt =====
-- The totals of a sheet are the sums of its sections and what follows from these, whatever the order
-- of its items.
use nestora_server.Prelude.{
  ℕ, ◌+◌, ◌*◌, ◌/◌, ◌%◌, ◌≤◌, ◌<◌, ◌≡◌, ◌≢◌, ◌∙◌, refl, ap, subst, Bool, true, false, Option, none,
  some, List, [], ◌∷◌, ◌==◌, if◌then◌else◌, Bool-cases, inl, inr, arith,
}
use nestora_server.Prelude.Int.{ℤ, pos, negsuc, ◌+ℤ◌, ◌≤ℤ◌, int_laws}
use native.Mathlib.Omega.{div_any}
use native.Mathlib.Nat.{mod-lt}
use nestora_server.BalanceSheets.Data.{BalanceSheetSection}
use mathlib.Core.List.{Permᴰ}
use nestora_server.BalanceSheets.Totals.{
  Entry, SectionTotals, add_to_section, no_totals, add_all, summary, totals, BalanceSheetTotals,
  magnitude, signed, same_sign, negative, quantized, ratio,
}

swapped : (x a b : ℤ) → (x +ℤ a) +ℤ b ≡ (x +ℤ b) +ℤ a
unfolding ◌+ℤ◌
swapped x a b = ground arith

add_to_section_comm :
    (e f : Entry) (t : SectionTotals)
    → add_to_section f (add_to_section e t) ≡ add_to_section e (add_to_section f t)
add_to_section_comm (x, a) (y, b) t =
    let assets = swapped t.current_asset a b in
    let fixed_assets = swapped t.non_current_asset a b in
    let liabilities = swapped t.current_liability a b in
    let fixed_liabilities = swapped t.non_current_liability a b in
    let equity = swapped t.equity a b in ground arith

add_all-Perm : {es fs : List Entry} (t : SectionTotals) → Permᴰ es fs → add_all es t ≡ add_all fs t
unfolding add_all
add_all-Perm t Permᴰ.nil = refl
add_all-Perm t (Permᴰ.cons {b = b} {l₁ = l₁} e d) =
    ap (λ (x : Entry). add_all l₁ (add_to_section x t)) e ∙ add_all-Perm (add_to_section b t) d
add_all-Perm t (Permᴰ.swap {a = a} {b = b} {l = l} e f) =
    ap (add_all l) (add_to_section_comm a b t) ∙ rw (e, f)
add_all-Perm t (Permᴰ.trans d e) = add_all-Perm t d ∙ add_all-Perm t e

totals-Perm : {es fs : List Entry} → Permᴰ es fs → totals es ≡ totals fs
unfolding totals
totals-Perm d = ap summary (add_all-Perm no_totals d)

section_number : BalanceSheetSection → ℕ
section_number BalanceSheetSection.current_asset = 0
section_number BalanceSheetSection.non_current_asset = 1
section_number BalanceSheetSection.current_liability = 2
section_number BalanceSheetSection.non_current_liability = 3
section_number BalanceSheetSection.equity = 4

-- The sum of the amounts of the items of a section.
unfoldable pub sum_of : (section : BalanceSheetSection) → List Entry → ℤ
unfolding section_number
sum_of x [] = pos 0
sum_of x ((y, a) ∷ es) = (if section_number y == section_number x then a else pos 0) +ℤ sum_of x es

-- Positive where both have one sign, negative where they have not.
abbrev pub IsSigned : ℤ → ℤ → ℤ → Type 0
IsSigned (pos a) (pos b) q = pos 0 ≤ℤ q
IsSigned (pos a) (negsuc b) q = q ≤ℤ pos 0
IsSigned (negsuc a) (pos b) q = q ≤ℤ pos 0
IsSigned (negsuc a) (negsuc b) q = pos 0 ≤ℤ q

-- `q` is `factor * a / b` to the nearest whole, halves away from zero.
pub record IsQuotient (factor : ℕ) (a b q : ℤ) : Type 0 where
  pub above : 2 * magnitude b * magnitude q ≤ 2 * factor * magnitude a + magnitude b
  pub below :
      2 * factor * magnitude a + magnitude b < 2 * magnitude b * magnitude q + 2 * magnitude b
  pub sign : IsSigned a b q

-- There is no ratio to zero; any other is rounded to hundredths.
abbrev pub IsRatio : ℤ → ℤ → Option ℤ → Type 0
IsRatio a b none = b ≡ pos 0
IsRatio a b (some q) = (b ≢ pos 0) × IsQuotient 100 a b q

-- What the totals of a sheet are.
pub record IsTotals (es : List Entry) (t : BalanceSheetTotals) : Type 0 where
  pub current_assets : t.current_assets ≡ sum_of BalanceSheetSection.current_asset es
  pub non_current_assets : t.non_current_assets ≡ sum_of BalanceSheetSection.non_current_asset es
  pub total_assets : t.total_assets ≡ t.current_assets +ℤ t.non_current_assets
  pub current_liabilities : t.current_liabilities ≡ sum_of BalanceSheetSection.current_liability es
  pub non_current_liabilities :
      t.non_current_liabilities ≡ sum_of BalanceSheetSection.non_current_liability es
  pub total_liabilities : t.total_liabilities ≡ t.current_liabilities +ℤ t.non_current_liabilities
  pub total_equity : t.total_equity ≡ sum_of BalanceSheetSection.equity es
  pub liabilities_and_equity : t.liabilities_and_equity ≡ t.total_liabilities +ℤ t.total_equity
  pub working_capital : t.working_capital +ℤ t.current_liabilities ≡ t.current_assets
  pub current_ratio : IsRatio t.current_assets t.current_liabilities t.current_ratio
  pub debt_to_equity_ratio : IsRatio t.total_liabilities t.total_equity t.debt_to_equity_ratio

total_of : BalanceSheetSection → SectionTotals → ℤ
total_of BalanceSheetSection.current_asset t = t.current_asset
total_of BalanceSheetSection.non_current_asset t = t.non_current_asset
total_of BalanceSheetSection.current_liability t = t.current_liability
total_of BalanceSheetSection.non_current_liability t = t.non_current_liability
total_of BalanceSheetSection.equity t = t.equity

total_of-add_to_section :
    (x y : BalanceSheetSection) (a : ℤ) (t : SectionTotals)
    → total_of x (add_to_section (y, a) t)
      ≡ total_of x t +ℤ (if section_number y == section_number x then a else pos 0)
unfolding total_of section_number ◌+ℤ◌
total_of-add_to_section x y a t = ground arith

total_of-add_all :
    (x : BalanceSheetSection) (es : List Entry) (t : SectionTotals)
    → total_of x (add_all es t) ≡ total_of x t +ℤ sum_of x es
unfolding add_all sum_of
total_of-add_all x [] t = omega int_laws
total_of-add_all x ((y, a) ∷ es) t =
    rw (total_of-add_all x es (add_to_section (y, a) t), total_of-add_to_section x y a t)
      (omega int_laws)

total_of-no_totals : (x : BalanceSheetSection) → total_of x no_totals ≡ pos 0
unfolding total_of
total_of-no_totals x = ground arith

section_sum :
    (x : BalanceSheetSection) (es : List Entry) → total_of x (add_all es no_totals) ≡ sum_of x es
section_sum x es = rw (total_of-add_all x es no_totals, total_of-no_totals x) (omega int_laws)

rounded :
    (n d : ℕ)
    → 0 < d
    → (2 * d * ((n + d) / (2 * d)) ≤ n + d) × (n + d < 2 * d * ((n + d) / (2 * d)) + 2 * d)
rounded n d positive =
    let whole = div_any (n + d) (2 * d) in
    let rest : (n + d) % (2 * d) < 2 * d = mod-lt (n + d) (omega arith) in
    (omega arith, omega arith)

magnitude-signed : (b : Bool) (n : ℕ) → magnitude (signed b n) ≡ n
magnitude-signed true n = ground arith
magnitude-signed false n = ground arith

signed-IsSigned : (a b : ℤ) (n : ℕ) → IsSigned a b (signed (same_sign (negative a) (negative b)) n)
signed-IsSigned (pos a) (pos b) n = omega arith
signed-IsSigned (pos a) (negsuc b) n = ground arith
signed-IsSigned (negsuc a) (pos b) n = ground arith
signed-IsSigned (negsuc a) (negsuc b) n = omega arith

quantized-IsQuotient :
    (factor : ℕ) (a b : ℤ) → 0 < magnitude b → IsQuotient factor a b (quantized factor a b)
unfolding quantized
quantized-IsQuotient factor a b positive =
    let near = rounded (2 * factor * magnitude a) (magnitude b) positive in
    record {
      above = rw magnitude-signed near.0;
      below = rw magnitude-signed near.1;
      sign = signed-IsSigned a b _;
    }

ratio-IsRatio : (a b : ℤ) → IsRatio a b (ratio a b)
unfolding ratio
ratio-IsRatio a b = elim (Bool-cases (magnitude b == 0)) [
  | inl zero_divisor ↦ rw zero_divisor (ground arith)
  | inr nonzero ↦
      rw nonzero ((λ is_zero. ground arith), quantized-IsQuotient 100 a b (ground arith))
]

totals-eq : (es : List Entry) → IsTotals es (totals es)
unfolding totals total_of
totals-eq es = record {
  current_assets = section_sum BalanceSheetSection.current_asset es;
  non_current_assets = section_sum BalanceSheetSection.non_current_asset es;
  total_assets = refl;
  current_liabilities = section_sum BalanceSheetSection.current_liability es;
  non_current_liabilities = section_sum BalanceSheetSection.non_current_liability es;
  total_liabilities = refl;
  total_equity = section_sum BalanceSheetSection.equity es;
  liabilities_and_equity = refl;
  working_capital = omega int_laws;
  current_ratio = ratio-IsRatio _ _;
  debt_to_equity_ratio = ratio-IsRatio _ _;
}

-- The totals of a sheet are those of its items in any order: each section has the sum of its amounts;
-- the assets, the liabilities, and liabilities and equity are the sums of their parts; the working
-- capital and the current liabilities make the current assets; and both ratios are the quotients to
-- the nearest hundredth, halves away from zero, and absent exactly where the divisor is zero.
pub totals-IsTotals : {es fs : List Entry} → Permᴰ es fs → IsTotals es (totals fs)
totals-IsTotals {es = es} d = subst (IsTotals es) (totals-Perm d) (totals-eq es)
