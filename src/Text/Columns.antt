-- ===== src/Text/Columns.antt =====
-- A text is cut at a separator.
use avbgraph.Prelude.{
  ℕ, zero, suc, ◌+◌, ◌≤◌, ◌≡◌, refl, ap, ◌∙◌, true, false, List, [], ◌∷◌, ◌++◌, ◌==◌, length, take,
  arith,
}
use avbgraph.Text.{npos, drop, find_loop}

-- The separator does not stand in the text.
abbrev pub Free : ℕ → List ℕ → Type 0
Free separator [] = Unit {0}
Free separator (c ∷ s) = ((c == separator) ≡ false) × Free separator s

pub find_loop-here :
    (separator i : ℕ) (a b : List ℕ)
    → Free separator a
    → find_loop separator i (a ++ separator ∷ b) ≡ i + length a
unfolding find_loop
find_loop-here separator i [] b h =
    let at : (separator == separator) ≡ true = ground arith in rw at (omega arith)
find_loop-here separator i (c ∷ a) b (h, hs) =
    rw h (find_loop-here separator (suc i) a b hs ∙ omega arith)

pub find_loop-npos :
    (separator i : ℕ) (a : List ℕ) → Free separator a → find_loop separator i a ≡ npos
unfolding find_loop
find_loop-npos separator i [] h = refl
find_loop-npos separator i (c ∷ a) (h, hs) = rw h (find_loop-npos separator (suc i) a hs)

pub drop-suc : (x : ℕ) (a b : List ℕ) → drop (suc (length a)) (a ++ x ∷ b) ≡ b
drop-suc x [] b = refl
drop-suc x (c ∷ a) b = drop-suc x a b

pub take-append : (a b : List ℕ) → take (length a) (a ++ b) ≡ a
take-append [] b = refl
take-append (c ∷ a) b = ap (λ (s : List ℕ). c ∷ s) (take-append a b)

pub take-whole : (n : ℕ) (a : List ℕ) → length a ≤ n → take n a ≡ a
take-whole zero [] h = refl
take-whole zero (c ∷ a) h = absurd (omega (arith, h))
take-whole (suc n) [] h = refl
take-whole (suc n) (c ∷ a) h = ap (λ (s : List ℕ). c ∷ s) (take-whole n a (omega (arith, h)))

pub drop-drop {ℓ} :
    {A : Type ℓ} (n a b : ℕ) (xs : List A) → n ≡ a + b → drop n xs ≡ drop b (drop a xs)
drop-drop n zero b xs e = let same : n ≡ b = omega (arith, e) in rw same refl
drop-drop zero (suc a) b xs e = absurd (omega (arith, e))
drop-drop (suc n) (suc a) zero [] e = refl
drop-drop (suc n) (suc a) (suc b) [] e = refl
drop-drop (suc n) (suc a) b (x ∷ xs) e = drop-drop n a b xs (omega (arith, e))
