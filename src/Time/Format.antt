-- ===== src/Time/Format.antt =====
-- The padded numbers of a formatted time: how they look in range, and how to read them back.
use ommo_sdk_external.Prelude.{
  ℕ, suc, ◌+◌, ◌/◌, ◌%◌, ◌≤◌, ◌<◌, ◌≡◌, refl, ap₂, arith, true, false, [], ◌∷◌, ◌++◌, ltb,
  Bool-cases, inl, inr,
}
use ommo_sdk_external.Time.{digits, padded}

digits1 : (p n : ℕ) → n < 10 → digits (suc p) n ≡ (48 + n) ∷ []
unfolding digits
digits1 p n h = let e : ltb n 10 ≡ true = ground arith in rw e refl

digits_more : (p n : ℕ) → 10 ≤ n → digits (suc p) n ≡ digits p (n / 10) ++ ((48 + n % 10) ∷ [])
unfolding digits
digits_more p n h = let e : ltb n 10 ≡ false = ground arith in rw e refl

digits2 : (p n : ℕ) → 10 ≤ n → n < 100 → digits (suc (suc p)) n ≡ (48 + n / 10) ∷ (48 + n % 10) ∷ []
digits2 p n l h = rw (digits_more (suc p) n l, digits1 p (n / 10) (omega arith)) refl

digits3 :
    (p n : ℕ)
    → 100 ≤ n
    → n < 1000
    → digits (suc (suc (suc p))) n ≡ (48 + n / 10 / 10) ∷ (48 + n / 10 % 10) ∷ (48 + n % 10) ∷ []
digits3 p n l h =
    rw (digits_more (suc (suc p)) n (omega arith), digits2 p (n / 10) (omega arith) (omega arith))
      refl

digits4 :
    (p n : ℕ)
    → 1000 ≤ n
    → n < 10000
    → digits (suc (suc (suc (suc p)))) n
      ≡ (48 + n / 10 / 10 / 10) ∷ (48 + n / 10 / 10 % 10) ∷ (48 + n / 10 % 10) ∷ (48 + n % 10) ∷ []
digits4 p n l h =
    rw
      (
        digits_more (suc (suc (suc p))) n (omega arith),
        digits3 p (n / 10) (omega arith) (omega arith),
      )
      refl

pub padded2 : (n : ℕ) → n < 100 → padded 2 n ≡ (48 + n / 10) ∷ (48 + n % 10) ∷ []
unfolding padded
padded2 n h = elim (Bool-cases (ltb n 10)) [
  | inl small ↦
      let d : digits 10 n ≡ (48 + n) ∷ [] = digits1 9 n (ground arith) in
      rw d (ap₂ (λ a b. a ∷ b ∷ []) (ground arith) (ground arith))
  | inr large ↦
      let d : digits 10 n ≡ (48 + n / 10) ∷ (48 + n % 10) ∷ [] = digits2 8 n (ground arith) h in
      rw d refl
]

pub padded3 :
    (n : ℕ) → n < 1000 → padded 3 n ≡ (48 + n / 10 / 10) ∷ (48 + n / 10 % 10) ∷ (48 + n % 10) ∷ []
unfolding padded
padded3 n h = elim (Bool-cases (ltb n 100)) [
  | inl small ↦ elim (Bool-cases (ltb n 10)) [
    | inl tiny ↦
        let d : digits 10 n ≡ (48 + n) ∷ [] = digits1 9 n (ground arith) in
        rw d (three (ground arith) (ground arith) (ground arith))
    | inr two ↦
        let d : digits 10 n ≡ (48 + n / 10) ∷ (48 + n % 10) ∷ [] =
          digits2 8 n (ground arith) (ground arith) in
        rw d (three (ground arith) (ground arith) refl)
  ]
  | inr large ↦
      let d : digits 10 n ≡ (48 + n / 10 / 10) ∷ (48 + n / 10 % 10) ∷ (48 + n % 10) ∷ [] =
        digits3 7 n (ground arith) h in
      rw d refl
]
  where
    three : {a b c d e f : ℕ} → a ≡ d → b ≡ e → c ≡ f → a ∷ b ∷ c ∷ [] ≡ d ∷ e ∷ f ∷ []
    three x y z = cc

pub padded4 :
    (n : ℕ)
    → 1000 ≤ n
    → n < 10000
    → padded 4 n
      ≡ (48 + n / 10 / 10 / 10) ∷ (48 + n / 10 / 10 % 10) ∷ (48 + n / 10 % 10) ∷ (48 + n % 10) ∷ []
unfolding padded
padded4 n l h = let d = digits4 6 n l h in rw d refl
