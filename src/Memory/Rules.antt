-- ===== src/Memory/Rules.antt =====
-- Rules for what a command does to the heap. A multiset of blocks is a function that counts them.
use ommo_sdk_external.Prelude.{
  ℕ, zero, suc, ◌+◌, ◌≤◌, ◌<◌, ◌≡◌, refl, true, none, some, List, [], ◌∷◌, arith, if◌then◌else◌,
  ◌==◌, ltb,
}
use ommo_sdk_external.Memory.{
  Heap, count, without, Ptr, M, pure, ◌>>=◌, ◌>>◌, new, delete, Object, move_out, for_each, fill,
}

-- No block is allocated twice, and the next one is new.
pub record IsValid (h : Heap) : Type 0 where
  pub once : (a : ℕ) → count a h.live ≤ 1
  pub fresh : (a : ℕ) → h.next ≤ a → count a h.live ≡ 0

abbrev pub Blocks : Type 0
Blocks = ℕ → ℕ

abbrev pub nothing : Blocks
nothing a = 0

abbrev pub block : ℕ → Blocks
block p a = if p == a then 1 else 0

abbrev pub at : Ptr → Blocks
at none a = 0
at (some p) a = block p a

-- On a valid heap that has the blocks `pre`, the command does not fault; it gives these up and owns
-- `post` of its result instead. No other block is touched, and the heap stays valid.
pub record Changes {A : Type 0} (pre : Blocks) (post : A → Blocks) (m : M A) : Type 0 where
  pub run :
      (h : Heap)
      → IsValid h
      → ((a : ℕ) → pre a ≤ count a h.live)
      → (x : A) × (h' : Heap) × (m h ≡ some (x, h'))
        × IsValid h'
        × ((a : ℕ) → count a h'.live + pre a ≡ count a h.live + post x a)

count-without :
    (p a : ℕ) (xs : List ℕ) → 0 < count p xs → count a (without p xs) + block p a ≡ count a xs
count-without p a [] h = omega arith
count-without p a (x ∷ xs) h = ground (arith, count-without p a xs)

pub new-Changes : Changes nothing block new
unfolding new
new-Changes = record {
  run = λ h v has. (
    h.next,
    record { next = suc h.next; live = h.next ∷ h.live },
    refl,
    record {
      once = λ a. ground (arith, v.once a, v.fresh a);
      fresh = λ a below. ground (arith, v.fresh a);
    },
    λ a. ground arith,
  );
}

pub delete-Changes : (p : Ptr) → Changes (at p) (λ x. nothing) (delete p)
unfolding delete
delete-Changes none = record { run = λ h v has. (tt, h, refl, v, λ a. omega arith) }
delete-Changes (some p) = record {
  run = λ h v has.
      let here : 0 < count p h.live = ground (arith, has p) in
      let test : ltb 0 (count p h.live) ≡ true = ground arith in
      (
        tt,
        record h { live = without p h.live },
        rw (delete, test) refl,
        record {
          once = λ a. omega (arith, v.once a, count-without p a h.live here);
          fresh = λ a below. omega (arith, v.fresh a below, count-without p a h.live here);
        },
        λ a. omega (arith, count-without p a h.live here),
      );
}

pub pure-Changes : {A : Type 0} {pre : Blocks} (x : A) → Changes pre (λ y. pre) (pure x)
pure-Changes x = record { run = λ h v has. (x, h, refl, v, λ a. refl) }

module _ {A B : Type 0} {pre : Blocks} {mid : A → Blocks} {m : M A} where
  pub >>=-Changes :
      {post : B → Blocks} {f : A → M B}
      → Changes pre mid m
      → ((x : A) → Changes (mid x) post (f x))
      → Changes pre post (m >>= f)
  >>=-Changes {f} first next = record {
    run = λ h v has.
        let (x, h1, e1, v1, c1) = first.run h v has in
        let (y, h2, e2, v2, c2) = (next x).run h1 v1 (λ a. omega (arith, c1 a, has a)) in
        (y, h2, rw e1 e2, v2, λ a. omega (arith, c1 a, c2 a));
  }

-- A command leaves alone what it is not given.
pub frame :
    {A : Type 0} {pre pre' : Blocks} {mid post : A → Blocks} {m : M A} (rest : Blocks)
    → Changes pre mid m
    → ((a : ℕ) → pre' a ≡ pre a + rest a)
    → ((x : A) (a : ℕ) → post x a ≡ mid x a + rest a)
    → Changes pre' post m
frame rest c before after = record {
  run = λ h v has.
      let (x, h', e, v', balance) = c.run h v (λ a. omega (arith, has a, before a)) in
      (x, h', e, v', λ a. omega (arith, balance a, before a, after x a));
}

-- To give up some of the blocks, which the rest does not need, and go on.
pub give->>= :
    {A B : Type 0} {pre mine rest : Blocks} {post : B → Blocks} {m : M A} {f : A → M B}
    → ((a : ℕ) → pre a ≡ mine a + rest a)
    → Changes mine (λ x. nothing) m
    → ((x : A) → Changes rest post (f x))
    → Changes pre post (m >>= f)
give->>= {pre} {rest} {f} split first next =
    >>=-Changes {mid = λ x. rest} {f = f} (frame {pre' = pre} rest first split (λ x a. omega arith))
      next

pub delete->> :
    {A : Type 0} {pre rest : Blocks} {post : A → Blocks} {m : M A} (p : Ptr)
    → ((a : ℕ) → pre a ≡ at p a + rest a)
    → Changes rest post m
    → Changes pre post (delete p >> m)
delete->> p split next = give->>= split (delete-Changes p) (λ x. next)

-- To allocate a block beside those that there are, and go on.
pub new->>= :
    {A : Type 0} {pre : Blocks} {post : A → Blocks} {f : ℕ → M A}
    → ((p : ℕ) → Changes (λ a. block p a + pre a) post (f p))
    → Changes pre post (new >>= f)
new->>= {pre} next =
    >>=-Changes {mid = λ p a. block p a + pre a}
      (frame {pre' = pre} pre new-Changes (λ a. omega arith) (λ x a. refl)) next

-- To end with a result that owns what is at hand.
pub pure_lem :
    {A : Type 0} {pre : Blocks} {post : A → Blocks} (x : A)
    → ((a : ℕ) → pre a ≡ post x a)
    → Changes pre post (pure x)
pure_lem x same = record { run = λ h v has. (x, h, refl, v, λ a. omega (arith, same a)) }

-- The blocks of a list, each element of which owns some.
abbrev pub total : {A : Type 0} → (A → Blocks) → List A → Blocks
total owns [] a = 0
total owns (x ∷ xs) a = owns x a + total owns xs a

module _ {A : Type 0} where
  pub move_out-Changes :
      {owns : A → Blocks} (o : Object A)
      → Changes (λ a. block o.at a + owns o.members a) owns (move_out o)
  unfolding move_out
  move_out-Changes o = delete->> (some o.at) (λ a. refl) (pure_lem o.members (λ a. refl))

  pub for_each-Changes :
      {P : A → Blocks} {Q : A → Blocks} {f : A → M A}
      → ((x : A) → Changes (P x) Q (f x))
      → (xs : List A) → Changes (total P xs) (total Q) (for_each f xs)
  unfolding for_each
  for_each-Changes each [] = pure_lem [] (λ a. refl)
  for_each-Changes {P} {Q} {f} each (x ∷ xs) =
      >>=-Changes (frame (total P xs) (each x) (λ a. refl) (λ y a. refl)) (λ y.
        >>=-Changes (frame (Q y) (for_each-Changes each xs) (λ a. omega arith) (λ ys a. refl))
          (λ ys. pure_lem (y ∷ ys) (λ a. omega arith)))

  -- If the function gives up all that an element owns, the loop does so for the list.
  pub for_each_gives :
      {P : A → Blocks} {f : A → M A}
      → ((x : A) → Changes (P x) (λ y. nothing) (f x))
      → (xs : List A) → Changes (total P xs) (λ ys. nothing) (for_each f xs)
  unfolding for_each
  for_each_gives each [] = pure_lem [] (λ a. refl)
  for_each_gives {P} each (x ∷ xs) =
      give->>= {rest = total P xs} (λ a. refl) (each x)
        (λ y.
          give->>= {rest = nothing} (λ a. omega arith) (for_each_gives each xs)
            (λ ys. pure_lem (y ∷ ys) (λ a. refl)))

  pub fill-Changes :
      {P : A → Blocks} {make : M A}
      → Changes nothing P make
      → (n : ℕ) → Changes nothing (total P) (fill n make)
  unfolding fill
  fill-Changes c zero = pure_lem [] (λ a. refl)
  fill-Changes {P} {make} c (suc n) = >>=-Changes c (λ x.
      >>=-Changes (frame (P x) (fill-Changes c n) (λ a. omega arith) (λ xs a. refl))
        (λ xs. pure_lem (x ∷ xs) (λ a. omega arith)))
