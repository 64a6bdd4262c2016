-- ===== src/Text.antt =====
-- What data-structure/data_types.h uses of std::string: find, substr and stoi. A text is the list
-- of its bytes, and a position is a 64-bit word.
pub mod Numbers
pub mod Columns
use avbgraph.Prelude.{
  ℕ, zero, suc, ◌+◌, ◌-◌, ◌*◌, ◌%◌, ◌^◌, Bool, true, false, ◌&&◌, ◌||◌, List, [], ◌∷◌, Option, ltb,
  leb, ◌==◌, if◌then◌else◌, take,
}

-- The exceptions that stoi throws.
pub data Error : Type 0 where
  invalid_argument : Error
  out_of_range : Error

pub data Result {ℓ} (A : Type ℓ) : Type ℓ where
  ok : A → Result A
  err : Error → Result A

infixl 5 ◌>>=◌
abbrev pub ◌>>=◌ {ℓ κ} : {A : Type ℓ} {B : Type κ} → Result A → (A → Result B) → Result B
ok a >>= f = f a
err e >>= f = err e

-- std::string::npos, -1 as a 64-bit word.
abbrev pub npos : ℕ
npos = 2 ^ 64 - 1

abbrev pub drop {ℓ} : {A : Type ℓ} → ℕ → List A → List A
drop zero xs = xs
drop (suc n) [] = []
drop (suc n) (x ∷ xs) = drop n xs

unfoldable pub find_loop : ℕ → ℕ → List ℕ → ℕ
find_loop separator i [] = npos
find_loop separator i (c ∷ s) = if c == separator then i else find_loop separator (suc i) s

-- `s.find(separator, from)`
unfoldable pub find : List ℕ → ℕ → ℕ → ℕ
find s separator from = find_loop separator from (drop from s)

-- `s.substr(pos, len)`, for a position in the text.
unfoldable pub substr : List ℕ → ℕ → ℕ → List ℕ
substr s pos len = take len (drop pos s)

abbrev pub is_digit : ℕ → Bool
is_digit c = leb b'0' c && leb c b'9'

abbrev pub is_space : ℕ → Bool
is_space c = c == 32 || leb 9 c && leb c 13

unfoldable pub skip_space : List ℕ → List ℕ
skip_space [] = []
skip_space (c ∷ s) = if is_space c then skip_space s else c ∷ s

-- The number that the digits at the start of a text make.
unfoldable pub value : ℕ → List ℕ → ℕ
value acc [] = acc
value acc (c ∷ s) = if is_digit c then value (acc * 10 + (c - b'0')) s else acc

-- The digits, and whether a minus stands before them; the answer as a 64-bit word.
unfoldable pub stoi_digits : Bool → List ℕ → Result ℕ
stoi_digits negated [] = err invalid_argument
stoi_digits negated (c ∷ s) =
    let n = value 0 (c ∷ s) in
    if is_digit c
    then (if negated
        then (if ltb (2 ^ 31) n then err out_of_range else ok ((2 ^ 64 - n) % 2 ^ 64))
        else if ltb n (2 ^ 31)
        then ok n
        else err out_of_range)
    else err invalid_argument

unfoldable pub stoi_sign : List ℕ → Result ℕ
stoi_sign [] = err invalid_argument
stoi_sign (c ∷ s) =
    if c == b'-'
    then stoi_digits true s
    else if c == b'+'
    then stoi_digits false s
    else stoi_digits false (c ∷ s)

-- std::stoi, converted to an unsigned 64-bit number.
unfoldable pub stoi : List ℕ → Result ℕ
stoi s = stoi_sign (skip_space s)
