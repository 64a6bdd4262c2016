-- ===== src/Version/Manager/Degree.antt =====
-- The degree of a vertex at an epoch.
use avbgraph.Prelude.Int.{ℤ, pos, negsuc, ◌+ℤ◌, ◌-ℤ◌, int_laws}
use avbgraph.Prelude.{
  ℕ, ◌+◌, ◌-◌, ◌%◌, ◌^◌, ◌≤◌, ◌<◌, ◌≡◌, refl, ◌∙◌, false, true, ap, List, [], ◌∷◌, some, arith, ltb,
  leb, if◌then◌else◌, Bool-cases, inl, inr,
}
use avbgraph.Version.Manager.Chain.{IsLinked, Rising, push_all, push_vb-IsLinked}
use avbgraph.Version.Manager.{
  to_word, VersionBlock, Manager, new, push_vb, degree_loop, get_degree, get_degree_versioned,
}

-- What the blocks up to an epoch add to the degree.
pub sum_until : ℕ → List VersionBlock → ℤ
sum_until epoch [] = pos 0
sum_until epoch (vb ∷ vbs) =
    (if leb vb.timestamp epoch then vb.edge_num else pos 0) +ℤ sum_until epoch vbs

pub sum_all : List VersionBlock → ℤ
sum_all [] = pos 0
sum_all (vb ∷ vbs) = vb.edge_num +ℤ sum_all vbs

sum_until_all :
    (epoch end : ℕ) (chain : List VersionBlock)
    → IsLinked end chain
    → end ≤ epoch
    → sum_until epoch chain ≡ sum_all chain
unfolding sum_until sum_all
sum_until_all epoch end [] l h = refl
sum_until_all epoch end (vb ∷ rest) (a, b, c) h =
    ground (arith, sum_until_all epoch vb.last_epoch rest c)

to_word-sub : (a b : ℤ) → (to_word a + 2 ^ 32 - to_word b) % 2 ^ 32 ≡ to_word (a -ℤ b)
unfolding to_word ◌-ℤ◌
to_word-sub (pos a) (pos b) = ground arith
to_word-sub (pos a) (negsuc b) = ground arith
to_word-sub (negsuc a) (pos b) = ground arith
to_word-sub (negsuc a) (negsuc b) = ground arith

to_word-lt : (a : ℤ) → to_word a < 2 ^ 32
unfolding to_word
to_word-lt (pos a) = omega arith
to_word-lt (negsuc a) = omega arith

to_word-add : (a b : ℤ) → (to_word a + to_word b) % 2 ^ 32 ≡ to_word (a +ℤ b)
unfolding to_word ◌+ℤ◌
to_word-add (pos a) (pos b) = ground arith
to_word-add (pos a) (negsuc b) = ground arith
to_word-add (negsuc a) (pos b) = ground arith
to_word-add (negsuc a) (negsuc b) = ground arith

degree_loop-sum :
    (epoch end : ℕ) (chain : List VersionBlock) (degree : ℤ)
    → IsLinked end chain
    → degree_loop epoch chain end (to_word degree)
      ≡ some (to_word (degree -ℤ sum_all chain +ℤ sum_until epoch chain))
unfolding degree_loop sum_all sum_until
degree_loop-sum epoch end [] degree l = elim (Bool-cases (ltb epoch end)) [
  | inl before ↦ absurd (ground arith)
  | inr reached ↦ rw reached (ap (λ (z : ℤ). some (to_word z)) (omega int_laws))
]
degree_loop-sum epoch end (vb ∷ rest) degree (a, b, c) =
    let later = degree_loop-sum epoch vb.last_epoch rest (degree -ℤ vb.edge_num) c in
    elim (Bool-cases (ltb epoch end)) [
      | inl before ↦
          let after : leb vb.timestamp epoch ≡ false = ground arith in
          rw (before, after, to_word-sub degree vb.edge_num)
            (later ∙ ap (λ (z : ℤ). some (to_word z)) (omega int_laws))
      | inr reached ↦
          let until : leb vb.timestamp epoch ≡ true = ground arith in
          let below = sum_until_all epoch vb.last_epoch rest c (ground arith) in
          rw (reached, until, below) (ap (λ (z : ℤ). some (to_word z)) (omega int_laws))
    ]

get_degree-sum :
    (epoch : ℕ) (n : ℤ) (m : Manager)
    → IsLinked m.end_epoch m.chain
    → n ≡ sum_all m.chain
    → get_degree (n, m) epoch ≡ some (to_word (sum_until epoch m.chain))
unfolding get_degree get_degree_versioned
get_degree-sum epoch n m l e =
    let run = degree_loop-sum epoch m.end_epoch m.chain (pos 0) l in
    let zero_word : to_word (pos 0) ≡ 0 = unfold to_word in refl in
    let start = rw zero_word at run in
    let rest = pos 0 -ℤ sum_all m.chain +ℤ sum_until epoch m.chain in
    let total : n +ℤ rest ≡ sum_until epoch m.chain = rw e (omega int_laws) in
    rw start (ap some (to_word-add n rest ∙ ap to_word total))

swapped : (a b c : ℤ) → a ≡ c → a +ℤ b ≡ b +ℤ c
swapped a b c e = rw e (omega int_laws)

push_vb-sum_all :
    (n : ℤ) (m : Manager) (vb : VersionBlock)
    → n ≡ sum_all m.chain
    → (push_vb n m vb).0 ≡ sum_all (push_vb n m vb).1.chain
unfolding push_vb sum_all
push_vb-sum_all n m vb e = swapped n vb.edge_num (sum_all m.chain) e

push_vb-sum_until :
    (epoch : ℕ) (n : ℤ) (m : Manager) (vb : VersionBlock) (rest : List VersionBlock)
    → sum_until epoch (push_vb n m vb).1.chain +ℤ sum_until epoch rest
      ≡ sum_until epoch m.chain +ℤ sum_until epoch (vb ∷ rest)
unfolding push_vb sum_until
push_vb-sum_until epoch n m vb rest = omega int_laws

sum_until-push_all :
    (epoch : ℕ) (n : ℤ) (m : Manager) (vbs : List VersionBlock)
    → IsLinked m.end_epoch m.chain
    → n ≡ sum_all m.chain
    → Rising m.end_epoch vbs
    → get_degree (push_all (n, m) vbs) epoch
      ≡ some (to_word (sum_until epoch m.chain +ℤ sum_until epoch vbs))
unfolding push_all
sum_until-push_all epoch n m [] l e r =
    get_degree-sum epoch n m l e
    ∙ ap (λ (z : ℤ). some (to_word z)) (unfold sum_until in omega int_laws)
sum_until-push_all epoch n m (vb ∷ vbs) l e (later, r) =
    sum_until-push_all epoch (push_vb n m vb).0 (push_vb n m vb).1 vbs
      (push_vb-IsLinked n m vb later l) (push_vb-sum_all n m vb e) (unfold push_vb in r)
    ∙ ap (λ (z : ℤ). some (to_word z)) (push_vb-sum_until epoch n m vb vbs)

-- After the blocks of rising, positive epochs have been published one by one, the degree at any
-- epoch is computed without a fault, and it is the sum of the edge counts of exactly the blocks
-- whose epoch is not after it, as an unsigned word: a negative sum is below 2^32 by its amount.
pub get_degree-push_all :
    (epoch : ℕ) (vbs : List VersionBlock)
    → Rising 0 vbs
    → get_degree (push_all (pos 0, new) vbs) epoch ≡ some (to_word (sum_until epoch vbs))
get_degree-push_all epoch vbs r =
    sum_until-push_all epoch (pos 0) new vbs (unfold new in refl) (unfold new sum_all in refl)
      (unfold new in r)
    ∙ ap (λ (z : ℤ). some (to_word z)) (unfold new sum_until in omega int_laws)

-- A vertex without version blocks has its own count of edges at every epoch.
pub get_degree-new : (n : ℤ) (epoch : ℕ) → get_degree (n, new) epoch ≡ some (to_word n)
unfolding get_degree get_degree_versioned degree_loop new
get_degree-new n epoch =
    let run : get_degree (n, new) epoch ≡ some ((to_word n + 0) % 2 ^ 32) = ground arith in
    let same : (to_word n + 0) % 2 ^ 32 ≡ to_word n = omega (arith, to_word-lt n) in
    run ∙ ap some same
