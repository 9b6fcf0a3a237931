-- ===== src/Version/Order.antt =====
-- The orders behind a comparison of versions: each is antisymmetric and transitive.
use reconkg.Base.{ℕ, Ordering, compare, [], ◌∷◌, ◌≡◌, refl, arith}
use reconkg.Base.Text.{Text}
use reconkg.Version.{Token, word, number, refine, compare_text, compare_token}

abbrev pub flip : Ordering → Ordering
flip Ordering.lt = Ordering.gt
flip Ordering.eq = Ordering.eq
flip Ordering.gt = Ordering.lt

-- How the orders of a pair (a, b) and a pair (b, c) bound that of (a, c).
abbrev pub Composes : Ordering → Ordering → Ordering → Type 0
Composes Ordering.eq q r = r ≡ q
Composes Ordering.lt Ordering.lt r = r ≡ Ordering.lt
Composes Ordering.lt Ordering.eq r = r ≡ Ordering.lt
Composes Ordering.lt Ordering.gt r = Unit
Composes Ordering.gt Ordering.lt r = Unit
Composes Ordering.gt Ordering.eq r = r ≡ Ordering.gt
Composes Ordering.gt Ordering.gt r = r ≡ Ordering.gt

pub refine-Composes :
    (p q r p' q' r' : Ordering)
    → Composes p q r
    → Composes p' q' r'
    → Composes (refine p p') (refine q q') (refine r r')
unfolding refine
refine-Composes p q r p' q' r' h k = ground arith

pub flip-refine : (p q : Ordering) → flip (refine p q) ≡ refine (flip p) (flip q)
unfolding refine
flip-refine p q = ground arith

compare-flip : (m n : ℕ) → compare n m ≡ flip (compare m n)
compare-flip m n = ground arith

compare-Composes : (a b c : ℕ) → Composes (compare a b) (compare b c) (compare a c)
compare-Composes a b c = ground arith

compare_self : (a : ℕ) → compare a a ≡ Ordering.eq
compare_self a = ground arith

compare_text-flip : (s t : Text) → compare_text t s ≡ flip (compare_text s t)
unfolding compare_text
compare_text-flip [] [] = refl
compare_text-flip [] (d ∷ t) = refl
compare_text-flip (c ∷ s) [] = refl
compare_text-flip (c ∷ s) (d ∷ t) = ground (arith, compare_text-flip s t, compare-flip c d)

compare_text_self : (s : Text) → compare_text s s ≡ Ordering.eq
unfolding compare_text
compare_text_self [] = refl
compare_text_self (c ∷ s) = ground (arith, compare_text_self s, compare_self c)

compare_text-Composes :
    (s t u : Text) → Composes (compare_text s t) (compare_text t u) (compare_text s u)
unfolding compare_text
compare_text-Composes [] [] u = refl
compare_text-Composes [] (d ∷ t) [] = tt
compare_text-Composes [] (d ∷ t) (e ∷ u) = ground arith
compare_text-Composes (c ∷ s) [] [] = refl
compare_text-Composes (c ∷ s) [] (e ∷ u) = tt
compare_text-Composes (c ∷ s) (d ∷ t) [] = ground arith
compare_text-Composes (c ∷ s) (d ∷ t) (e ∷ u) =
    refine-Composes (compare c d) (compare d e) (compare c e) _ _ _ (compare-Composes c d e)
      (compare_text-Composes s t u)

pub compare_token-flip : (x y : Token) → compare_token y x ≡ flip (compare_token x y)
unfolding compare_token
compare_token-flip (word v) (word w) = compare_text-flip v w
compare_token-flip (number m) (number n) = compare-flip m n
compare_token-flip _ _ = refl

pub compare_token_self : (x : Token) → compare_token x x ≡ Ordering.eq
unfolding compare_token
compare_token_self (word v) = compare_text_self v
compare_token_self (number m) = compare_self m

pub compare_token-Composes :
    (x y z : Token) → Composes (compare_token x y) (compare_token y z) (compare_token x z)
unfolding compare_token
compare_token-Composes (word u) (word v) (word w) = compare_text-Composes u v w
compare_token-Composes (number l) (number m) (number n) = compare-Composes l m n
compare_token-Composes _ _ _ = ground arith
