-- ===== src/Text/Numbers.antt =====
-- Decimal numbers are read back.
use avbgraph.Prelude.{
  ℕ, zero, suc, ◌+◌, ◌-◌, ◌*◌, ◌/◌, ◌%◌, ◌^◌, ◌<◌, ◌≡◌, refl, ap, sym, ◌∙◌, true, false, List, [],
  ◌∷◌, ◌++◌, ltb, ◌==◌, if◌then◌else◌, arith, Bool-cases, inl, inr,
}
use avbgraph.Text.{
  ok, err, out_of_range, is_digit, is_space, skip_space, value, stoi_digits, stoi_sign, stoi,
}

-- The decimal digits of a number, with fuel.
unfoldable pub digits : ℕ → ℕ → List ℕ
digits zero n = []
digits (suc f) n =
    let before = digits f (n / 10) in (if ltb n 10 then [] else before) ++ (n % 10 + b'0') ∷ []

unfoldable pub print : ℕ → List ℕ
print n = digits (suc n) n

abbrev pub AllDigits : List ℕ → Type 0
AllDigits [] = Unit {0}
AllDigits (c ∷ s) = (is_digit c ≡ true) × AllDigits s

AllDigits-append : (xs ys : List ℕ) → AllDigits xs → AllDigits ys → AllDigits (xs ++ ys)
AllDigits-append [] ys h k = k
AllDigits-append (x ∷ xs) ys (h, hs) k = (h, AllDigits-append xs ys hs k)

value-append :
    (acc : ℕ) (xs ys : List ℕ) → AllDigits xs → value acc (xs ++ ys) ≡ value (value acc xs) ys
unfolding value
value-append acc [] ys h = refl
value-append acc (x ∷ xs) ys (h, hs) = rw h (value-append (acc * 10 + (x - b'0')) xs ys hs)

digits-AllDigits : (f n : ℕ) → AllDigits (digits f n)
unfolding digits
digits-AllDigits zero n = tt
digits-AllDigits (suc f) n = elim (Bool-cases (ltb n 10)) [
  | inl e ↦ rw e (ground arith, tt)
  | inr e ↦
      rw e (AllDigits-append (digits f (n / 10)) _ (digits-AllDigits f (n / 10)) (ground arith, tt))
]

value-digit : (acc d : ℕ) → d < 10 → value acc ((d + b'0') ∷ []) ≡ acc * 10 + d
unfolding value
value-digit acc d h = let digit : is_digit (d + 48) ≡ true = ground arith in rw digit (omega arith)

value-digits : (f n : ℕ) → n < f → value 0 (digits f n) ≡ n
unfolding digits
value-digits zero n h = absurd (omega (arith, h))
value-digits (suc f) n h = elim (Bool-cases (ltb n 10)) [
  | inl e ↦ rw e (value-digit 0 (n % 10) (omega arith) ∙ ground arith)
  | inr e ↦ rw e (
      value-append 0 (digits f (n / 10)) _ (digits-AllDigits f (n / 10))
      ∙ ap (λ (acc : ℕ). value acc ((n % 10 + b'0') ∷ []))
          (value-digits f (n / 10) (ground (arith, h)))
      ∙ value-digit (n / 10) (n % 10) (omega arith)
      ∙ omega arith)
]

-- A number starts with a digit.
head_digit :
    (xs : List ℕ) (y : ℕ)
    → AllDigits (xs ++ y ∷ [])
    → (c : ℕ) × (s : List ℕ) × (xs ++ y ∷ [] ≡ c ∷ s) × (is_digit c ≡ true)
head_digit [] y (h, hs) = (y, [], refl, h)
head_digit (x ∷ xs) y (h, hs) = (x, xs ++ y ∷ [], refl, h)

digits-head : (f n : ℕ) → (c : ℕ) × (s : List ℕ) × (digits (suc f) n ≡ c ∷ s) × (is_digit c ≡ true)
unfolding digits
digits-head f n =
    head_digit (if ltb n 10 then [] else digits f (n / 10)) (n % 10 + b'0')
      (digits-AllDigits (suc f) n)

-- A decimal number is read back if it is below 2 ^ 31, and refused otherwise.
pub stoi-print : (n : ℕ) → stoi (print n) ≡ (if ltb n (2 ^ 31) then ok n else err out_of_range)
unfolding stoi stoi_sign stoi_digits skip_space print
stoi-print n =
    let (c, s, shape, digit) = digits-head n n in
    let blank : is_space c ≡ false = ground (arith, digit) in
    let minus : (c == b'-') ≡ false = ground (arith, digit) in
    let plus : (c == b'+') ≡ false = ground (arith, digit) in
    let read : value 0 (c ∷ s) ≡ n =
      ap (value 0) (sym shape) ∙ value-digits (suc n) n (omega arith) in
    rw shape (rw (blank, minus, plus, digit, read) refl)

pub print-AllDigits : (n : ℕ) → AllDigits (print n)
unfolding print
print-AllDigits n = digits-AllDigits (suc n) n
