-- ===== src/Version/Padding.antt =====
-- Padding to a common width: any width that both operands fit in gives the same comparison, so
-- versions compare as streams of tokens that end in `absent`.
use reconkg.Base.{
  ℕ, zero, suc, ◌+◌, ◌-◌, ◌≤◌, Ordering, max, List, [], ◌∷◌, ◌++◌, ◌≡◌, refl, sym, ◌∙◌, ap, arith,
  length,
}
use reconkg.Version.{Token, refine, compare_token, compare_tuple, absent, pad, compare_parsed}
use reconkg.Version.Order.{
  flip, Composes, refine-Composes, flip-refine, compare_token-flip, compare_token_self,
  compare_token-Composes,
}

abbrev first : List Token → Token
first [] = absent
first (x ∷ xs) = x

abbrev others : List Token → List Token
others [] = []
others (x ∷ xs) = xs

-- The comparison of the first `n` tokens of two streams.
pub aligned : ℕ → List Token → List Token → Ordering
aligned zero a b = Ordering.eq
aligned (suc n) a b = refine (compare_token (first a) (first b)) (aligned n (others a) (others b))

pad-suc : (n : ℕ) (a : List Token) → length a ≤ suc n → pad (suc n) a ≡ first a ∷ pad n (others a)
unfolding pad
pad-suc n [] h = let e : suc n - 0 ≡ suc (n - 0) = omega arith in rw e
pad-suc n (x ∷ xs) h = let e : suc n - suc (length xs) ≡ n - length xs = omega arith in rw e

length-others : (n : ℕ) (a : List Token) → length a ≤ suc n → length (others a) ≤ n
length-others n [] h = omega arith
length-others n (x ∷ xs) h = omega arith

compare_tuple-pad :
    (n : ℕ) (a b : List Token)
    → length a ≤ n
    → length b ≤ n
    → compare_tuple (pad n a) (pad n b) ≡ aligned n a b
unfolding compare_tuple aligned
compare_tuple-pad zero [] [] h k = unfold pad in refl
compare_tuple-pad zero (x ∷ a) b h k = absurd (omega arith)
compare_tuple-pad zero [] (y ∷ b) h k = absurd (omega arith)
compare_tuple-pad (suc n) a b h k =
    rw (pad-suc n a h, pad-suc n b k)
      (ap (refine (compare_token (first a) (first b)))
        (compare_tuple-pad n (others a) (others b) (length-others n a h) (length-others n b k)))

aligned_nil : (n : ℕ) → aligned n [] [] ≡ Ordering.eq
unfolding aligned refine
aligned_nil zero = refl
aligned_nil (suc n) = ground (arith, compare_token_self absent, aligned_nil n)

aligned_more :
    (n : ℕ) (a b : List Token) → length a ≤ n → length b ≤ n → aligned (suc n) a b ≡ aligned n a b
unfolding aligned
aligned_more zero [] [] h k = aligned_nil 1
aligned_more zero (x ∷ a) b h k = absurd (omega arith)
aligned_more zero [] (y ∷ b) h k = absurd (omega arith)
aligned_more (suc n) a b h k =
    ap (refine (compare_token (first a) (first b)))
      (aligned_more n (others a) (others b) (length-others n a h) (length-others n b k))

aligned-add :
    (d n : ℕ) (a b : List Token) → length a ≤ n → length b ≤ n → aligned (d + n) a b ≡ aligned n a b
aligned-add zero n a b h k = let e : zero + n ≡ n = omega arith in rw e
aligned-add (suc d) n a b h k =
    let e : suc d + n ≡ suc (d + n) = omega arith in
    rw e (aligned_more (d + n) a b (omega arith) (omega arith) ∙ aligned-add d n a b h k)

-- At every width that both operands fit in.
pub compare_parsed-eq-aligned :
    (n : ℕ) (a b : List Token) → length a ≤ n → length b ≤ n → compare_parsed a b ≡ aligned n a b
unfolding compare_parsed
compare_parsed-eq-aligned n a b h k =
    let m : ℕ = max (length a) (length b) in
    let e : (n - m) + m ≡ n = omega arith in
    compare_tuple-pad m a b (omega arith) (omega arith)
    ∙ sym (aligned-add (n - m) m a b (omega arith) (omega arith))
    ∙ ap (λ w. aligned w a b) e

aligned-flip : (n : ℕ) (a b : List Token) → aligned n b a ≡ flip (aligned n a b)
unfolding aligned
aligned-flip zero a b = refl
aligned-flip (suc n) a b =
    rw (compare_token-flip (first a) (first b), aligned-flip n (others a) (others b), flip-refine)

aligned-Composes :
    (n : ℕ) (a b c : List Token) → Composes (aligned n a b) (aligned n b c) (aligned n a c)
unfolding aligned
aligned-Composes zero a b c = refl
aligned-Composes (suc n) a b c =
    refine-Composes _ _ _ (aligned n (others a) (others b)) (aligned n (others b) (others c))
      (aligned n (others a) (others c)) (compare_token-Composes (first a) (first b) (first c))
      (aligned-Composes n (others a) (others b) (others c))

pub compare_parsed-flip : (a b : List Token) → compare_parsed b a ≡ flip (compare_parsed a b)
compare_parsed-flip a b =
    let n : ℕ = length a + length b in
    rw
      (
        compare_parsed-eq-aligned n a b (omega arith) (omega arith),
        compare_parsed-eq-aligned n b a (omega arith) (omega arith),
      )
      (aligned-flip n a b)

pub compare_parsed-Composes :
    (a b c : List Token) → Composes (compare_parsed a b) (compare_parsed b c) (compare_parsed a c)
compare_parsed-Composes a b c =
    let n : ℕ = length a + length b + length c in
    rw
      (
        compare_parsed-eq-aligned n a b (omega arith) (omega arith),
        compare_parsed-eq-aligned n b c (omega arith) (omega arith),
        compare_parsed-eq-aligned n a c (omega arith) (omega arith),
      )
      (aligned-Composes n a b c)

aligned_self : (n : ℕ) (a : List Token) → aligned n a a ≡ Ordering.eq
unfolding aligned refine
aligned_self zero a = refl
aligned_self (suc n) a = ground (arith, compare_token_self (first a), aligned_self n (others a))

aligned-absent : (n : ℕ) (a : List Token) → aligned n (a ++ absent ∷ []) a ≡ Ordering.eq
unfolding aligned refine
aligned-absent zero a = refl
aligned-absent (suc n) [] = ground (arith, compare_token_self absent, aligned_nil n)
aligned-absent (suc n) (x ∷ a) = ground (arith, compare_token_self x, aligned-absent n a)

-- One more zero at the end changes nothing.
pub compare_parsed-absent : (a : List Token) → compare_parsed (a ++ absent ∷ []) a ≡ Ordering.eq
compare_parsed-absent a =
    let n : ℕ = length (a ++ absent ∷ []) + length a in
    compare_parsed-eq-aligned n (a ++ absent ∷ []) a (omega arith) (omega arith)
    ∙ aligned-absent n a

aligned_suffix :
    (n : ℕ) (a : List Token) (x : Token) (b : List Token)
    → length a ≤ n
    → compare_token x absent ≡ Ordering.lt
    → aligned (suc n) (a ++ x ∷ b) a ≡ Ordering.lt
unfolding aligned refine
aligned_suffix n [] x b h e = ground (arith, e)
aligned_suffix zero (y ∷ a) x b h e = absurd (omega arith)
aligned_suffix (suc n) (y ∷ a) x b h e =
    ground (arith, compare_token_self y, aligned_suffix n a x b (omega arith) e)

-- What goes on with a token below `absent` is below.
pub compare_parsed_suffix :
    (a : List Token) (x : Token) (b : List Token)
    → compare_token x absent ≡ Ordering.lt
    → compare_parsed (a ++ x ∷ b) a ≡ Ordering.lt
compare_parsed_suffix a x b e =
    let n : ℕ = length (a ++ x ∷ b) + length a in
    compare_parsed-eq-aligned (suc n) (a ++ x ∷ b) a (omega arith) (omega arith)
    ∙ aligned_suffix n a x b (omega arith) e
