-- ===== src/Invoices/Digits.antt =====
-- Generated invoice numbers of one month: different sequence numbers give texts that differ in every
-- comparison the uniqueness check makes.
use nestora_server.Prelude.{
  ℕ, zero, suc, ◌+◌, ◌-◌, ◌*◌, ◌/◌, ◌%◌, ◌<◌, ◌≡◌, refl, sym, ap, ◌∙◌, true, false, Bool, [], ◌∷◌,
  ◌++◌, ltb, arith, if◌then◌else◌, Bool-cases, inl, inr,
}
use mathlib.Core.List.{append_cancel_left, map-append}
use nestora_server.Prelude.Text.{
  Text, lower, lower_char, strip, lstrip, rstrip, is_space, rstrip-snoc,
}
use nestora_server.Invoices.Number.{digits_fuel, digits, digits_04, invoice_number_text}

-- The number that a text of digits stands for, read from the left.
read : ℕ → Text → ℕ
read acc [] = acc
read acc (c ∷ s) = read (10 * acc + (c - 48)) s

read-snoc : (acc : ℕ) (s : Text) (c : ℕ) → read acc (s ++ c ∷ []) ≡ 10 * read acc s + (c - 48)
unfolding read
read-snoc acc [] c = refl
read-snoc acc (d ∷ s) c = read-snoc (10 * acc + (d - 48)) s c

read-digits_fuel : (f n : ℕ) → n < f → read 0 (digits_fuel f n) ≡ n
unfolding read digits_fuel
read-digits_fuel zero n h = elim h [ ]
read-digits_fuel (suc f) n h = elim (Bool-cases (ltb n 10)) [
  | inl one ↦ rw one (omega arith)
  | inr more ↦
      let big : 10 < n + 1 = ground arith in
      rw (more, read-snoc, read-digits_fuel f (n / 10) (omega arith)) (omega arith)
]

read-digits : (n : ℕ) → read 0 (digits n) ≡ n
unfolding digits
read-digits n = read-digits_fuel (suc n) n (omega arith)

read-digits_04 : (n : ℕ) → read 0 (digits_04 n) ≡ n
unfolding read digits_04
read-digits_04 n = ground (arith, read-digits n)

-- A text that ends in a digit.
record EndsInDigit (s : Text) : Type 0 where
  init : Text
  last : ℕ
  split : s ≡ init ++ last ∷ []
  digit : is_space last ≡ false

digits_fuel-EndsInDigit : (f n : ℕ) → EndsInDigit (digits_fuel (suc f) n)
unfolding digits_fuel
digits_fuel-EndsInDigit f n = elim (Bool-cases (ltb n 10)) [
  | inl one ↦ record { init = []; last = 48 + n; split = rw one; digit = ground arith }
  | inr more ↦ record {
    init = digits_fuel f (n / 10);
    last = 48 + n % 10;
    split = rw more;
    digit = ground arith;
  }
]

EndsInDigit-cons : (c : ℕ) (s : Text) → EndsInDigit s → EndsInDigit (c ∷ s)
EndsInDigit-cons c s h = record {
  init = c ∷ h.init;
  last = h.last;
  split = ap (◌∷◌ c) h.split;
  digit = h.digit;
}

digits_04-EndsInDigit : (n : ℕ) → EndsInDigit (digits_04 n)
unfolding digits_04
digits_04-EndsInDigit n =
    let e : EndsInDigit (digits n) = unfold digits in digits_fuel-EndsInDigit n n in
    pad (ltb n 10) (ltb n 100) (ltb n 1000) e
  where
    pad :
        (a b c : Bool)
        → EndsInDigit (digits n)
        → EndsInDigit (
            if a
            then 48 ∷ 48 ∷ 48 ∷ digits n
            else if b
            then 48 ∷ 48 ∷ digits n
            else if c
            then 48 ∷ digits n
            else digits n)
    pad true b c e = EndsInDigit-cons 48 _ (EndsInDigit-cons 48 _ (EndsInDigit-cons 48 _ e))
    pad false true c e = EndsInDigit-cons 48 _ (EndsInDigit-cons 48 _ e)
    pad false false true e = EndsInDigit-cons 48 _ e
    pad false false false e = e

lower-digits_fuel : (f n : ℕ) → lower (digits_fuel f n) ≡ digits_fuel f n
unfolding lower digits_fuel lower_char
lower-digits_fuel zero n = refl
lower-digits_fuel (suc f) n = elim (Bool-cases (ltb n 10)) [
  | inl one ↦ rw one (ground arith)
  | inr more ↦ rw (more, map-append) (ground (arith, lower-digits_fuel f (n / 10)))
]

lower-digits : (n : ℕ) → lower (digits n) ≡ digits n
unfolding digits
lower-digits n = lower-digits_fuel (suc n) n

lower-digits_04 : (n : ℕ) → lower (digits_04 n) ≡ digits_04 n
unfolding digits_04 lower lower_char
lower-digits_04 n = ground (arith, lower-digits n)

EndsInDigit-append : (r s : Text) → EndsInDigit s → EndsInDigit (r ++ s)
EndsInDigit-append [] s h = h
EndsInDigit-append (c ∷ r) s h = EndsInDigit-cons c (r ++ s) (EndsInDigit-append r s h)

rstrip-EndsInDigit : (s : Text) → EndsInDigit s → rstrip s ≡ s
rstrip-EndsInDigit s h = rw h.split (rstrip-snoc h.init h.last h.digit)

-- A generated number has no white space at its ends.
pub strip-invoice_number_text :
    (ym : Text) (n : ℕ) → strip (invoice_number_text ym n) ≡ invoice_number_text ym n
unfolding strip lstrip invoice_number_text
strip-invoice_number_text ym n = rstrip-EndsInDigit _ (
    EndsInDigit-append (73 ∷ 78 ∷ 86 ∷ 45 ∷ []) _
      (EndsInDigit-append ym _ (EndsInDigit-cons 45 _ (digits_04-EndsInDigit n))))

lower-invoice_number_text :
    (ym : Text) (n : ℕ)
    → lower (invoice_number_text ym n) ≡ 105 ∷ 110 ∷ 118 ∷ 45 ∷ lower ym ++ 45 ∷ digits_04 n
unfolding lower lower_char invoice_number_text
lower-invoice_number_text ym n = rw map-append (ground (arith, lower-digits_04 n))

abbrev tail : Text → Text
tail [] = []
tail (c ∷ s) = s

-- In one month no two sequence numbers give the same text, not even up to case.
pub invoice_number_text-injective :
    (ym : Text) (i j : ℕ)
    → lower (strip (invoice_number_text ym i)) ≡ lower (strip (invoice_number_text ym j))
    → i ≡ j
invoice_number_text-injective ym i j e =
    let p : lower (invoice_number_text ym i) ≡ lower (invoice_number_text ym j) =
      rw (strip-invoice_number_text, strip-invoice_number_text) at e in
    let q = sym (lower-invoice_number_text ym i) ∙ p ∙ lower-invoice_number_text ym j in
    let r = append_cancel_left (lower ym) _ _ (ap (λ (s : Text). tail (tail (tail (tail s)))) q) in
    sym (read-digits_04 i) ∙ ap (λ (s : Text). read 0 (tail s)) r ∙ read-digits_04 j
