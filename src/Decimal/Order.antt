-- ===== src/Decimal/Order.antt =====
-- The order of numbers that are printed to one width: that of their texts.
use Prim.Native.Char.{code}
use Prim.Native.Nat.{compare as compare_ℕ, Ordering}
use Prim.Native.String as Text
use Prim.Native.String.{[], ◌∷◌, ◌++◌, count, compare, then}
use text.Mathlib.TextLemmas.{cons-append, nil-append, length-cons, length-nil}
use group_sync_operator.Prelude.{
  ℕ, zero, suc, ◌+◌, ◌-◌, ◌*◌, ◌/◌, ◌%◌, ◌<◌, ◌≤◌, ◌≡◌, refl, sym, ap, ◌∙◌, String, ltb, arith,
  Bool-cases, inl, inr,
}
use group_sync_operator.Decimal.{digit, itoa_from, itoa, zeros, pad}

then_assoc : (a b c : Ordering) → Text.then (Text.then a b) c ≡ Text.then a (Text.then b c)
then_assoc Ordering.lt b c = refl
then_assoc Ordering.eq b c = refl
then_assoc Ordering.gt b c = refl

by_tens :
    (m n : ℕ)
    → Text.then (compare_ℕ (m / 10) (n / 10)) (compare_ℕ (48 + m % 10) (48 + n % 10))
      ≡ compare_ℕ m n
by_tens m n = ground arith

code-digit : (d : ℕ) → d < 10 → code (digit d) ≡ 48 + d
code-digit zero h = refl
code-digit (suc zero) h = refl
code-digit (suc (suc zero)) h = refl
code-digit (suc (suc (suc zero))) h = refl
code-digit (suc (suc (suc (suc zero)))) h = refl
code-digit (suc (suc (suc (suc (suc zero))))) h = refl
code-digit (suc (suc (suc (suc (suc (suc zero)))))) h = refl
code-digit (suc (suc (suc (suc (suc (suc (suc zero))))))) h = refl
code-digit (suc (suc (suc (suc (suc (suc (suc (suc zero)))))))) h = refl
code-digit (suc (suc (suc (suc (suc (suc (suc (suc (suc zero))))))))) h = refl
code-digit (suc (suc (suc (suc (suc (suc (suc (suc (suc (suc d)))))))))) h = absurd (omega arith)

-- The last `w` digits of a number, before `acc`.
pub digits : ℕ → ℕ → String → String
digits zero n acc = acc
digits (suc w) n acc = digits w (n / 10) (digit (n % 10) ∷ acc)

abbrev pub power_of_ten : ℕ → ℕ
power_of_ten zero = 1
power_of_ten (suc w) = 10 * power_of_ten w

zeros-cons : (w : ℕ) (acc : String) → zeros w ++ (digit 0 ∷ acc) ≡ digit 0 ∷ (zeros w ++ acc)
unfolding zeros
zeros-cons zero acc = nil-append (digit 0 ∷ acc) ∙ ap (λ t. digit 0 ∷ t) (sym (nil-append acc))
zeros-cons (suc w) acc =
    cons-append (digit 0) (zeros w) (digit 0 ∷ acc)
    ∙ (ap (λ t. digit 0 ∷ t) (zeros-cons w acc)
        ∙ ap (λ t. digit 0 ∷ t) (sym (cons-append (digit 0) (zeros w) acc)))

digits-zero : (w : ℕ) (acc : String) → digits w 0 acc ≡ zeros w ++ acc
unfolding digits zeros
digits-zero zero acc = sym (nil-append acc)
digits-zero (suc w) acc =
    digits-zero w (digit 0 ∷ acc) ∙ (zeros-cons w acc ∙ sym (cons-append (digit 0) (zeros w) acc))

abbrev Padded : ℕ → ℕ → String → String → Type 0
Padded w n acc text =
    (k : ℕ) × (k + count text ≡ w + count acc) × (zeros k ++ text ≡ digits w n acc)

last_digit : (w n : ℕ) (acc : String) → n < 10 → Padded (suc w) n acc (digit n ∷ acc)
unfolding digits
last_digit w n acc h =
    let q : n / 10 ≡ 0 = omega arith in
    let r : n % 10 ≡ n = omega arith in
    (
      w,
      rw (length-cons (digit n) acc) (omega arith),
      rw (q, r) (sym (digits-zero w (digit n ∷ acc))),
    )

-- A number that fits is printed as its digits, after zeros.
padded :
    (w f n : ℕ) (acc : String)
    → n < f
    → n < power_of_ten (suc w)
    → Padded (suc w) n acc (itoa_from f n acc)
unfolding itoa_from digits
padded w zero n acc hf hn = absurd (omega arith)
padded zero (suc f) n acc hf hn = elim (Bool-cases (ltb n 10)) [
  | inl e ↦ rw e (last_digit zero n acc (ground arith))
  | inr e ↦ absurd (let u : n < 10 = omega arith in ground arith)
]
padded (suc w) (suc f) n acc hf hn = elim (Bool-cases (ltb n 10)) [
  | inl e ↦ rw e (last_digit (suc w) n acc (ground arith))
  | inr e ↦
      let u : 10 ≤ n = ground arith in
      let r : _ = padded w f (n / 10) (digit (n % 10) ∷ acc) (omega arith) (omega arith) in
      let c : _ = length-cons (digit (n % 10)) acc in rw e (r.0, omega (arith, r.1, c), r.2)
]

-- A number of at most `w` digits is printed as these.
pub pad-digits : (w n : ℕ) → n < power_of_ten (suc w) → pad (suc w) n ≡ digits (suc w) n []
unfolding pad itoa
pad-digits w n h =
    let r : _ = padded w (suc n) n [] (omega arith) h in
    let k : suc w - count (itoa_from (suc n) n []) ≡ r.0 = omega (arith, r.1, length-nil) in
    rw k r.2

pub digits-append :
    (w n : ℕ) (acc rest : String) → digits w n acc ++ rest ≡ digits w n (acc ++ rest)
unfolding digits
digits-append zero n acc rest = refl
digits-append (suc w) n acc rest =
    digits-append w (n / 10) (digit (n % 10) ∷ acc) rest
    ∙ ap (digits w (n / 10)) (cons-append (digit (n % 10)) acc rest)

-- Two numbers of at most `w` digits are in the order of their digits, and what follows decides only
-- between equal ones.
pub compare-digits :
    (w m n : ℕ) (s t : String)
    → m < power_of_ten w
    → n < power_of_ten w
    → compare (digits w m s) (digits w n t) ≡ Text.then (compare_ℕ m n) (compare s t)
unfolding digits
compare-digits zero m n s t hm hn =
    let p : m ≡ 0 = omega arith in let q : n ≡ 0 = omega arith in rw (p, q) refl
compare-digits (suc w) m n s t hm hn =
    compare-digits w (m / 10) (n / 10) (digit (m % 10) ∷ s) (digit (n % 10) ∷ t) (omega arith)
      (omega arith)
    ∙ rw
        (
          Text.compare.cons-cons (digit (m % 10)) (digit (n % 10)) s t,
          code-digit (m % 10) (omega arith),
          code-digit (n % 10) (omega arith),
          ← by_tens m n,
        )
        (sym (then_assoc _ _ (compare s t)))
