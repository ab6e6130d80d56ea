-- ===== src/BalanceSheets/Totals.antt =====
-- app/modules/balance_sheets/service.py: `totals` and the growth between two sheets. Python's decimal
-- context rounds a quotient to 28 digits before it is rounded to hundredths: this is left out.
use nestora_server.Prelude.{
  ℕ, ◌+◌, ◌*◌, ◌/◌, Bool, true, false, Option, none, some, List, [], ◌∷◌, if◌then◌else◌, ◌==◌,
}
use nestora_server.Prelude.Int.{ℤ, pos, negsuc, pos_part, neg_part, sub_ℕ, ◌+ℤ◌, ◌-ℤ◌}
use nestora_server.BalanceSheets.Data.{BalanceSheetSection}

-- What `totals` reads of an item: the section and the amount.
abbrev pub Entry : Type 0
Entry = BalanceSheetSection × ℤ

-- The sum of the amounts of each section.
pub record SectionTotals : Type 0 where
  pub current_asset : ℤ
  pub non_current_asset : ℤ
  pub current_liability : ℤ
  pub non_current_liability : ℤ
  pub equity : ℤ

abbrev pub add_to_section : Entry → SectionTotals → SectionTotals
add_to_section (BalanceSheetSection.current_asset, a) t = record t {
  current_asset = t.current_asset +ℤ a;
}
add_to_section (BalanceSheetSection.non_current_asset, a) t = record t {
  non_current_asset = t.non_current_asset +ℤ a;
}
add_to_section (BalanceSheetSection.current_liability, a) t = record t {
  current_liability = t.current_liability +ℤ a;
}
add_to_section (BalanceSheetSection.non_current_liability, a) t = record t {
  non_current_liability = t.non_current_liability +ℤ a;
}
add_to_section (BalanceSheetSection.equity, a) t = record t { equity = t.equity +ℤ a }

abbrev pub no_totals : SectionTotals
no_totals = record {
  current_asset = pos 0;
  non_current_asset = pos 0;
  current_liability = pos 0;
  non_current_liability = pos 0;
  equity = pos 0;
}

-- The loop over the items, from the totals so far.
unfoldable pub add_all : List Entry → SectionTotals → SectionTotals
add_all [] t = t
add_all (e ∷ es) t = add_all es (add_to_section e t)

-- |a|
abbrev pub magnitude : ℤ → ℕ
magnitude a = pos_part a + neg_part a

abbrev pub is_zero : ℤ → Bool
is_zero a = magnitude a == 0

abbrev pub negative : ℤ → Bool
negative (pos n) = false
negative (negsuc n) = true

abbrev pub signed : Bool → ℕ → ℤ
signed true n = pos n
signed false n = sub_ℕ 0 n

abbrev pub same_sign : Bool → Bool → Bool
same_sign true b = b
same_sign false true = false
same_sign false false = true

-- factor * a / b, rounded half up, that is away from zero.
unfoldable pub quantized : ℕ → ℤ → ℤ → ℤ
quantized factor a b =
    signed (same_sign (negative a) (negative b))
      ((2 * factor * magnitude a + magnitude b) / (2 * magnitude b))

-- `(a / b).quantize(Decimal("0.01"), ROUND_HALF_UP) if b else None`, in hundredths.
unfoldable pub ratio : ℤ → ℤ → Option ℤ
ratio a b = if is_zero b then none else some (quantized 100 a b)

pub record BalanceSheetTotals : Type 0 where
  pub current_assets : ℤ
  pub non_current_assets : ℤ
  pub total_assets : ℤ
  pub current_liabilities : ℤ
  pub non_current_liabilities : ℤ
  pub total_liabilities : ℤ
  pub total_equity : ℤ
  pub liabilities_and_equity : ℤ
  pub working_capital : ℤ
  pub current_ratio : Option ℤ
  pub debt_to_equity_ratio : Option ℤ

abbrev pub summary : SectionTotals → BalanceSheetTotals
summary t = record {
  current_assets = t.current_asset;
  non_current_assets = t.non_current_asset;
  total_assets = t.current_asset +ℤ t.non_current_asset;
  current_liabilities = t.current_liability;
  non_current_liabilities = t.non_current_liability;
  total_liabilities = t.current_liability +ℤ t.non_current_liability;
  total_equity = t.equity;
  liabilities_and_equity = (t.current_liability +ℤ t.non_current_liability) +ℤ t.equity;
  working_capital = t.current_asset -ℤ t.current_liability;
  current_ratio = ratio t.current_asset t.current_liability;
  debt_to_equity_ratio = ratio (t.current_liability +ℤ t.non_current_liability) t.equity;
}

unfoldable pub totals : List Entry → BalanceSheetTotals
totals es = summary (add_all es no_totals)

-- `growth` of `serialize`, in hundredths of a percent.
unfoldable pub growth : ℤ → Option ℤ → Option ℤ
growth current none = none
growth current (some prior) =
    if is_zero prior
    then none
    else some (quantized 10000 (current -ℤ prior) (pos (magnitude prior)))
