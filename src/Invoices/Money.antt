-- ===== src/Invoices/Money.antt =====
-- app/modules/invoices/service.py: `money` and `calculate`, in exact arithmetic. Python's decimal
-- context rounds a product of more than 28 digits before `quantize` sees it; the model stands for
-- the payloads whose products and sums have no more.
use nestora_server.Prelude.{ℕ, ◌+◌, ◌-◌, ◌*◌, ◌/◌, List, [], ◌∷◌, ltb}
use nestora_server.Http.{Status, Exec, pure, raise_if, ◌>>◌}
use nestora_server.Invoices.Data.{DiscountType, InvoiceLineRequest, InvoiceRequest}

-- `value.quantize(Decimal("0.01"), rounding=ROUND_HALF_UP)` of a value in ten-thousandths of a cent.
unfoldable pub money : ℕ → ℕ
money value = (value + 5000) / 10000

-- `sum((line.quantity * line.rate for line in payload.lines), ZERO)`, in ten-thousandths of a cent.
unfoldable pub exact_sum : List InvoiceLineRequest → ℕ
exact_sum [] = 0
exact_sum (line ∷ lines) = line.quantity * line.rate + exact_sum lines

pub record Totals : Type 0 where
  pub subtotal : ℕ
  pub discount : ℕ
  pub tax : ℕ
  pub grand_total : ℕ

-- The discount before it is compared with the subtotal.
unfoldable pub discount_of : DiscountType → ℕ → ℕ → ℕ
unfolding money
discount_of DiscountType.percentage value subtotal = money (subtotal * value)
discount_of DiscountType.flat value subtotal = money (value * 10000)
discount_of DiscountType.no_discount value subtotal = 0

unfoldable pub calculate : {S : Type 0} → InvoiceRequest → Exec S Totals
calculate payload = do
  let subtotal = money (exact_sum payload.lines)
  let discount = discount_of payload.discount_type payload.discount_value subtotal
  raise_if (ltb subtotal discount) Status.unprocessable_content
      "Discount cannot exceed the invoice subtotal"
  let taxable = subtotal - discount
  let tax = money (taxable * payload.tax_rate)
  pure (record {
    subtotal = subtotal;
    discount = discount;
    tax = tax;
    grand_total = money ((taxable + tax) * 10000);
  })
