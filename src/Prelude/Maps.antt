-- ===== src/Prelude/Maps.antt =====
-- Finite maps with numbers for keys, as association lists in the order of the keys (`std::map`). For
-- an unordered map any order of iteration is allowed; this is one.
use Prim.Native.Nat.{ℕ}
use mathlib.Core.Path.{◌≡◌, refl, ap, subst₂}
use mathlib.Core.Logic.{◌≢◌, inl, inr}
use mathlib.Core.List.{List, [], ◌∷◌}
use mathlib.Core.Option.{Option, none, some}
use native.Mathlib.Omega.{arith}
use ommo_sdk_external.Prelude.Lists.{length}
use ommo_sdk_external.Prelude.Tests.{ltb, ◌==◌, if◌then◌else◌, Bool-cases, ==_iff}

module _ {ℓ} {V : Type ℓ} where
  abbrev pub lookup : ℕ → List (ℕ × V) → Option V
  lookup k [] = none
  lookup k ((j, v) ∷ m) = if j == k then some v else lookup k m

  abbrev pub insert : ℕ → V → List (ℕ × V) → List (ℕ × V)
  insert k v [] = (k, v) ∷ []
  insert k v ((j, w) ∷ m) =
      if j == k then (k, v) ∷ m else if ltb k j then (k, v) ∷ (j, w) ∷ m else (j, w) ∷ insert k v m

  abbrev pub erase : ℕ → List (ℕ × V) → List (ℕ × V)
  erase k [] = []
  erase k ((j, v) ∷ m) = let rest = erase k m in if j == k then rest else (j, v) ∷ rest

  -- The value under a key is changed where it stands.
  abbrev pub change_first : ℕ → (V → V) → List (ℕ × V) → List (ℕ × V)
  change_first k f [] = []
  change_first k f ((j, v) ∷ m) =
      let rest = change_first k f m in if j == k then (j, f v) ∷ m else (j, v) ∷ rest

module _ {V : Type 0} where
  pub lookup-insert :
      (k j : ℕ) (v : V) (m : List (ℕ × V))
      → lookup j (insert k v m) ≡ (if k == j then some v else lookup j m)
  lookup-insert k j v [] = refl
  lookup-insert k j v ((i, w) ∷ m) = ground (arith, lookup-insert k j v m)

  pub lookup-erase :
      (k j : ℕ) (m : List (ℕ × V)) → lookup j (erase k m) ≡ (if k == j then none else lookup j m)
  lookup-erase k j [] = ground arith
  lookup-erase k j ((i, w) ∷ m) = ground (arith, lookup-erase k j m)

  pub lookup-change_first :
      (k : ℕ) (f : V → V) (v : V) (m : List (ℕ × V))
      → lookup k m ≡ some v
      → lookup k (change_first k f m) ≡ some (f v)
  lookup-change_first k f v [] found = cc
  lookup-change_first k f v ((j, w) ∷ m) found = elim (Bool-cases (j == k)) [
    | inl same ↦
        let hit = rw same at found in
        rw (same, same) ((let value : w ≡ v = cc hit in ap (λ x. some (f x)) value))
    | inr other ↦ rw (other, other) (lookup-change_first k f v m (rw other at found))
  ]

  pub length-change_first :
      (k : ℕ) (f : V → V) (m : List (ℕ × V)) → length (change_first k f m) ≡ length m
  length-change_first k f [] = refl
  length-change_first k f ((j, v) ∷ m) = ground (arith, length-change_first k f m)

  pub lookup-change_first_other :
      (k j : ℕ) (f : V → V) (m : List (ℕ × V)) → j ≢ k → lookup j (change_first k f m) ≡ lookup j m
  lookup-change_first_other k j f [] ne = refl
  lookup-change_first_other k j f ((i, w) ∷ m) ne =
      ground (arith, lookup-change_first_other k j f m ne)

  -- Every value of a map satisfies a predicate of its key.
  abbrev pub Each : (ℕ → V → Type 0) → List (ℕ × V) → Type 0
  Each P [] = Unit {0}
  Each P ((k, v) ∷ m) = P k v × Each P m

  pub Each-insert :
      (P : ℕ → V → Type 0) (k : ℕ) (v : V) (m : List (ℕ × V))
      → P k v
      → Each P m
      → Each P (insert k v m)
  Each-insert P k v [] p h = (p, tt)
  Each-insert P k v ((j, w) ∷ m) p h = elim (Bool-cases (j == k)) [
    | inl same ↦ rw same (p, h.1)
    | inr other ↦ elim (Bool-cases (ltb k j)) [
      | inl before ↦ rw (other, before) (p, h)
      | inr after ↦ rw (other, after) (h.0, Each-insert P k v m p h.1)
    ]
  ]

  pub Each-erase : (P : ℕ → V → Type 0) (k : ℕ) (m : List (ℕ × V)) → Each P m → Each P (erase k m)
  Each-erase P k [] h = tt
  Each-erase P k ((j, w) ∷ m) h = elim (Bool-cases (j == k)) [
    | inl same ↦ rw same (Each-erase P k m h.1)
    | inr other ↦ rw other (h.0, Each-erase P k m h.1)
  ]

  pub Each-lookup :
      (P : ℕ → V → Type 0) (k : ℕ) (m : List (ℕ × V)) (v : V)
      → Each P m
      → lookup k m ≡ some v
      → P k v
  Each-lookup P k [] v h e = cc
  Each-lookup P k ((j, w) ∷ m) v h e = elim (Bool-cases (j == k)) [
    | inl same ↦
        let hit = rw same at e in
        let key : j ≡ k = (==_iff j k).0 same in
        let value : w ≡ v = cc hit in subst₂ P key value h.0
    | inr other ↦ Each-lookup P k m v h.1 (rw other at e)
  ]

  pub Each-weaken :
      (P Q : ℕ → V → Type 0) (m : List (ℕ × V))
      → ((k : ℕ) (v : V) → P k v → Q k v)
      → Each P m
      → Each Q m
  Each-weaken P Q [] f h = tt
  Each-weaken P Q ((j, w) ∷ m) f h = (f j w h.0, Each-weaken P Q m f h.1)

  pub Each-erased :
      (P : ℕ → V → Type 0) (k : ℕ) (m : List (ℕ × V))
      → Each P m
      → Each (λ j v. (j ≢ k) × P j v) (erase k m)
  Each-erased P k [] h = tt
  Each-erased P k ((j, w) ∷ m) h = elim (Bool-cases (j == k)) [
    | inl same ↦ rw same (Each-erased P k m h.1)
    | inr other ↦
        let ne : j ≢ k = ground (arith, other) in rw other ((ne, h.0), Each-erased P k m h.1)
  ]

  pub Each-missing :
      (P : ℕ → V → Type 0) (k : ℕ) (m : List (ℕ × V))
      → lookup k m ≡ none
      → Each P m
      → Each (λ j v. (j ≢ k) × P j v) m
  Each-missing P k [] e h = tt
  Each-missing P k ((j, w) ∷ m) e h = elim (Bool-cases (j == k)) [
    | inl same ↦ absurd (ground (arith, e, same))
    | inr other ↦
        let ne : j ≢ k = ground (arith, other) in
        ((ne, h.0), Each-missing P k m (rw other at e) h.1)
  ]
