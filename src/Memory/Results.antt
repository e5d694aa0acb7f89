-- ===== src/Memory/Results.antt =====
-- What the result of a command satisfies, whenever it returns one; and a rule that joins it with
-- `Changes`.
use ommo_sdk_external.Prelude.{
  ℕ, zero, suc, ◌≡◌, refl, ap, arith, none, some, List, [], ◌∷◌, length, Option-cases, inl, inr,
}
use ommo_sdk_external.Memory.{Heap, M, pure, ◌>>=◌, fill}
use ommo_sdk_external.Memory.Rules.{Changes, Blocks}

pub record Results {A : Type 0} (P : A → Type 0) (m : M A) : Type 0 where
  pub get : (h : Heap) (x : A) (h' : Heap) → m h ≡ some (x, h') → P x

abbrev pub All : {A : Type 0} → (A → Type 0) → List A → Type 0
All P [] = Unit {0}
All P (x ∷ xs) = P x × All P xs

module _ {A : Type 0} where
  pub pure-Results : {P : A → Type 0} (x : A) → P x → Results P (pure x)
  pure-Results {P} x p = record { get = λ h y h' e. let same : x ≡ y = cc in rw (← same) p }

  -- Where nothing is known of the result.
  pub any-Results : (m : M A) → Results (λ x. Unit {0}) m
  any-Results m = record { get = λ h x h' e. tt }

module _ {A B : Type 0} {P : A → Type 0} {m : M A} where
  pub >>=-Results :
      {Q : B → Type 0} {f : A → M B}
      → Results P m
      → ((x : A) → P x → Results Q (f x))
      → Results Q (m >>= f)
  >>=-Results {Q} {f} first next = record {
    get = λ h y h' e. elim (Option-cases (m h)) [
      | inl fault ↦ absurd (let bad : (m >>= f) h ≡ none = rw fault refl in cc)
      | inr ((x, h1), found) ↦ (next x (first.get h x h1 found)).get h1 y h' (rw found at e)
    ];
  }

  -- In `Changes`, what follows a command may rely on what its result satisfies.
  pub >>=-Changes_when :
      {pre : Blocks} {mid : A → Blocks} {post : B → Blocks} {f : A → M B}
      → Results P m
      → Changes pre mid m
      → ((x : A) → P x → Changes (mid x) post (f x))
      → Changes pre post (m >>= f)
  >>=-Changes_when {f} knows first next = record {
    run = λ h v has.
        let (x, h1, e1, v1, c1) = first.run h v has in
        let (y, h2, e2, v2, c2) =
          (next x (knows.get h x h1 e1)).run h1 v1 (λ a. omega (arith, c1 a, has a)) in
        (y, h2, rw e1 e2, v2, λ a. omega (arith, c1 a, c2 a));
  }

pub fill-Results :
    {A : Type 0} {P : A → Type 0} {make : M A}
    → Results P make
    → (n : ℕ) → Results (λ xs. (length xs ≡ n) × All P xs) (fill n make)
unfolding fill
fill-Results r zero = pure-Results [] (refl, tt)
fill-Results r (suc n) = >>=-Results r (λ x p.
    >>=-Results (fill-Results r n) (λ xs ps. pure-Results (x ∷ xs) (ap suc ps.0, (p, ps.1))))
