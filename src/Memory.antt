-- ===== src/Memory.antt =====
-- The memory that the structs of include/sdk_types.h own: a heap of the blocks that `new` has given
-- and `delete` has not taken back. A null pointer is `none`. To delete null does nothing; to delete a
-- block that is not allocated is a fault, `none`. That `new` fails is not modelled.
pub mod Rules
pub mod Results
pub mod Lifetimes
pub mod Leaks
pub mod Storage
pub mod Structs
pub mod Destroy
pub mod Create
use ommo_sdk_external.Prelude.{
  ℕ, zero, suc, ◌+◌, Bool, true, false, Option, none, some, List, [], ◌∷◌, if◌then◌else◌, ◌==◌, ltb,
}

pub record Heap : Type 0 where
  pub next : ℕ
  pub live : List ℕ

abbrev pub count : ℕ → List ℕ → ℕ
count a [] = 0
count a (b ∷ bs) = (if b == a then 1 else 0) + count a bs

abbrev pub without : ℕ → List ℕ → List ℕ
without a [] = []
without a (b ∷ bs) = let rest = without a bs in if b == a then bs else b ∷ rest

abbrev pub Ptr : Type 0
Ptr = Option ℕ

abbrev pub M : Type 0 → Type 0
M A = Heap → Option (A × Heap)

abbrev pub pure : {A : Type 0} → A → M A
pure x h = some (x, h)

abbrev pub continue : {A B : Type 0} → Option (A × Heap) → (A → M B) → Option (B × Heap)
continue none f = none
continue (some (x, h)) f = f x h

infixl 5 ◌>>=◌ ◌>>◌
abbrev pub ◌>>=◌ : {A B : Type 0} → M A → (A → M B) → M B
m >>= f = λ h. continue (m h) f

abbrev pub ◌>>◌ : {A B : Type 0} → M A → M B → M B
m >> k = m >>= λ x. k

unfoldable pub new : M ℕ
new h = some (h.next, record { next = suc h.next; live = h.next ∷ h.live })

unfoldable pub delete : Ptr → M (Unit {0})
delete none h = some (tt, h)
delete (some p) h =
    if ltb 0 (count p h.live) then some (tt, record h { live = without p h.live }) else none

-- `new T`, a block with the members of a struct in it.
pub record Object (A : Type 0) : Type 0 where
  pub at : ℕ
  pub members : A

-- A member that points to a new array, with those contents that own memory themselves.
pub record Array (A : Type 0) : Type 0 where
  pub address : Ptr
  pub elements : List A

module _ {A : Type 0} where
  -- `MoveAndDeletePtr` and `MoveUniquePtr`: the members are copied out, the block is deleted.
  unfoldable pub move_out : Object A → M A
  move_out o = do delete (some o.at); pure o.members

  -- A loop that runs a function on every element of an array and stores what it leaves.
  unfoldable pub for_each : (A → M A) → List A → M (List A)
  for_each f [] = pure []
  for_each f (x ∷ xs) = do y ← f x; ys ← for_each f xs; pure (y ∷ ys)

  -- A loop of `n` rounds, each of which fills an element.
  unfoldable pub fill : ℕ → M A → M (List A)
  fill zero make = pure []
  fill (suc n) make = do x ← make; xs ← fill n make; pure (x ∷ xs)
