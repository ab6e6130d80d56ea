-- ===== src/Invoices/Totals.antt =====
-- The amounts of an invoice: what `calculate` returns, and how far the printed line
-- amounts may be from the subtotal.
use nestora_server.Prelude.{ℕ, ◌+◌, ◌-◌, ◌*◌, ◌≤◌, ◌<◌, ◌≡◌, refl, List, [], ◌∷◌, none, arith}
use nestora_server.Prelude.Table.{length}
use nestora_server.Http.{ok}
use nestora_server.Invoices.Data.{
  DiscountType, InvoiceLineRequest, InvoiceRequest, InvoiceLine, validate_business_rules,
}
use nestora_server.Invoices.Money.{Totals, money, exact_sum, discount_of, calculate}
use nestora_server.Invoices.Service.{build_lines}

-- `cents` is the value, given in ten-thousandths of a cent, rounded to the nearest cent, half up.
pub record IsNearest (value cents : ℕ) : Type 0 where
  pub above : 10000 * cents ≤ value + 5000
  pub below : value < 10000 * cents + 5000

pub money-IsNearest : (value : ℕ) → IsNearest value (money value)
unfolding money
money-IsNearest value = record { above = omega arith; below = omega arith }

-- A tax rate of at most a hundred per cent.
pub money-le : (n rate : ℕ) → rate ≤ 10000 → money (n * rate) ≤ n
unfolding money
money-le n rate h = let p : n * rate ≤ n * 10000 = grind arith in omega arith

-- What a discount of each type is of a subtotal.
abbrev pub IsDiscount : DiscountType → (value subtotal discount : ℕ) → Type 0
IsDiscount DiscountType.percentage value subtotal discount = IsNearest (subtotal * value) discount
IsDiscount DiscountType.flat value subtotal discount = discount ≡ value
IsDiscount DiscountType.no_discount value subtotal discount = discount ≡ 0

-- The amounts fit together.
pub record IsTotal (payload : InvoiceRequest) (t : Totals) : Type 0 where
  pub subtotal : IsNearest (exact_sum payload.lines) t.subtotal
  pub discount : IsDiscount payload.discount_type payload.discount_value t.subtotal t.discount
  pub covered : t.discount ≤ t.subtotal
  pub tax : IsNearest ((t.subtotal - t.discount) * payload.tax_rate) t.tax
  pub tax_bounded : t.tax ≤ t.subtotal - t.discount
  pub grand_total : t.grand_total + t.discount ≡ t.subtotal + t.tax

money_whole : (n : ℕ) → money (n * 10000) ≡ n
unfolding money
money_whole n = omega arith

discount_of-IsDiscount :
    (d : DiscountType) (value subtotal : ℕ)
    → IsDiscount d value subtotal (discount_of d value subtotal)
unfolding discount_of
discount_of-IsDiscount DiscountType.percentage value subtotal = money-IsNearest (subtotal * value)
discount_of-IsDiscount DiscountType.flat value subtotal = money_whole value
discount_of-IsDiscount DiscountType.no_discount value subtotal = refl

module _ {S : Type 0} (payload : InvoiceRequest) (s : S) where
  pub calculate_state : (calculate payload s).1 ≡ s
  unfolding calculate
  calculate_state = ground arith

  -- The state is not read.
  pub calculate_value : (s' : S) → (calculate payload s).0 ≡ (calculate payload s').0
  unfolding calculate
  calculate_value s' = ground arith

  -- Whenever the totals are computed, at a tax rate of at most 100, they fit together: the subtotal is
  -- the exact sum of the lines to the nearest cent; the discount is the percentage of it to the
  -- nearest cent, the flat value or zero, and covered by it; the tax is due on what is left of it,
  -- to the nearest cent, and no more than that; and the grand total is what is left and the tax.
  pub calculate-IsTotal :
      (t : Totals) → payload.tax_rate ≤ 10000 → (calculate payload s).0 ≡ ok t → IsTotal payload t
  unfolding calculate
  calculate-IsTotal t rate h =
      let subtotal_is : t.subtotal ≡ money (exact_sum payload.lines) = ground arith in
      let discount_is : t.discount
          ≡ discount_of payload.discount_type payload.discount_value t.subtotal =
        ground arith in
      let tax_is : t.tax ≡ money ((t.subtotal - t.discount) * payload.tax_rate) = ground arith in
      let covers : t.discount ≤ t.subtotal = ground arith in
      let all : t.grand_total ≡ money ((t.subtotal - t.discount + t.tax) * 10000) = ground arith in
      record {
        subtotal = rw subtotal_is (money-IsNearest (exact_sum payload.lines));
        discount =
            rw discount_is
              (discount_of-IsDiscount payload.discount_type payload.discount_value t.subtotal);
        covered = covers;
        tax = rw tax_is (money-IsNearest ((t.subtotal - t.discount) * payload.tax_rate));
        tax_bounded = rw tax_is (money-le (t.subtotal - t.discount) payload.tax_rate rate);
        grand_total = omega (arith, all, money_whole (t.subtotal - t.discount + t.tax));
      }

-- The discount of a validated payload, unless it is flat, is at most the subtotal that it is taken
-- from.
pub percentage_covered :
    (payload : InvoiceRequest) (subtotal : ℕ)
    → validate_business_rules payload ≡ none
    → (payload.discount_type ≡ DiscountType.flat → ⊥)
    → discount_of payload.discount_type payload.discount_value subtotal ≤ subtotal
unfolding validate_business_rules
percentage_covered payload subtotal valid not_flat = go payload.discount_type refl
  where
    go :
        (d : DiscountType)
        → payload.discount_type ≡ d
        → discount_of payload.discount_type payload.discount_value subtotal ≤ subtotal
    go DiscountType.flat e = absurd (not_flat e)
    go DiscountType.no_discount e = rw e (unfold discount_of in omega arith)
    go DiscountType.percentage e =
        let bounded : payload.discount_value ≤ 10000 = ground arith in
        rw e (unfold discount_of in money-le subtotal payload.discount_value bounded)

-- The sum of the amounts printed on the lines.
unfoldable pub sum_amounts : List InvoiceLine → ℕ
sum_amounts [] = 0
sum_amounts (l ∷ ls) = l.amount + sum_amounts ls

lines_near :
    (id account index uuid : ℕ) (lines : List InvoiceLineRequest)
    → (10000 * sum_amounts (build_lines id lines account index uuid)
        ≤ exact_sum lines + 5000 * length lines)
      × (exact_sum lines
          ≤ 10000 * sum_amounts (build_lines id lines account index uuid) + 5000 * length lines)
unfolding sum_amounts build_lines exact_sum length
lines_near id account index uuid [] = omega arith
lines_near id account index uuid (l ∷ ls) =
    let rest = lines_near id account (index + 1) (uuid + 1) ls in
    let near = money-IsNearest (l.quantity * l.rate) in
    let above = near.above in
    let below = near.below in let low = rest.0 in let high = rest.1 in (omega arith, omega arith)

-- For totals that fit together, the sum of the printed line amounts and the subtotal differ by at most
-- half a cent for each line and half a cent more.
pub lines-near-subtotal :
    (payload : InvoiceRequest) (t : Totals) (id account uuid : ℕ)
    → IsTotal payload t
    → let amounts = sum_amounts (build_lines id payload.lines account 0 uuid) in
      (2 * amounts ≤ 2 * t.subtotal + length payload.lines + 1)
      × (2 * t.subtotal ≤ 2 * amounts + length payload.lines + 1)
lines-near-subtotal payload t id account uuid h =
    let near = lines_near id account 0 uuid payload.lines in
    let low = near.0 in
    let high = near.1 in
    let above = h.subtotal.above in let below = h.subtotal.below in (omega arith, omega arith)
