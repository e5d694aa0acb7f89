-- ===== src/Convert/Strings.antt =====
-- The strings of src/protobuf_converters.cpp: `new char[s.length() + 1]` and
-- `std::strcpy(.., s.c_str())`. `c_str` ends in a NUL. To write or read outside an array is a fault.
use ommo_sdk_external.Prelude.{
  ℕ, zero, suc, ◌+◌, ◌≡◌, refl, ap, arith, Option, none, some, List, [], ◌∷◌, ◌++◌, length,
  if◌then◌else◌, ◌==◌, ◌>>=◌, Bool-cases, inl, inr,
}

-- `strcpy` into an array: byte for byte, up to and with the first NUL.
unfoldable pub strcpy : List ℕ → List ℕ → Option (List ℕ)
strcpy [] source = none
strcpy (d ∷ ds) [] = none
strcpy (d ∷ ds) (c ∷ cs) =
    let rest = (do r ← strcpy ds cs; some (c ∷ r)) in if c == 0 then some (c ∷ ds) else rest

-- A new array of so many bytes, which hold what the memory held.
unfoldable pub new_bytes : (ℕ → ℕ) → ℕ → List ℕ
new_bytes fresh zero = []
new_bytes fresh (suc n) = fresh n ∷ new_bytes fresh n

unfoldable pub copy_string : (ℕ → ℕ) → List ℕ → Option (List ℕ)
unfolding strcpy new_bytes
copy_string fresh s = strcpy (new_bytes fresh (length s + 1)) (s ++ (0 ∷ []))

-- The text that a `char*` stands for: the bytes before the first NUL.
unfoldable pub read_string : List ℕ → Option (List ℕ)
read_string [] = none
read_string (c ∷ cs) =
    let rest = (do r ← read_string cs; some (c ∷ r)) in if c == 0 then some [] else rest

-- A string up to its first NUL.
abbrev pub until_nul : List ℕ → List ℕ
until_nul [] = []
until_nul (c ∷ cs) = let rest = c ∷ until_nul cs in if c == 0 then [] else rest

length-new_bytes : (fresh : ℕ → ℕ) (n : ℕ) → length (new_bytes fresh n) ≡ n
unfolding new_bytes
length-new_bytes fresh zero = refl
length-new_bytes fresh (suc n) = ap suc (length-new_bytes fresh n)

strcpy_lem :
    (memory s : List ℕ)
    → length memory ≡ length s + 1
    → (bytes : List ℕ) × (strcpy memory (s ++ (0 ∷ [])) ≡ some bytes)
      × (length bytes ≡ length memory)
      × (read_string bytes ≡ some (until_nul s))
unfolding strcpy read_string
strcpy_lem [] s e = absurd (omega arith)
strcpy_lem (d ∷ ds) [] e = (0 ∷ ds, refl, refl, refl)
strcpy_lem (d ∷ ds) (c ∷ cs) e =
    let (bytes, copied, size, text) = strcpy_lem ds cs (omega arith) in
    elim (Bool-cases (c == 0)) [
      | inl nul ↦ (c ∷ ds, rw nul refl, refl, rw nul refl)
      | inr more ↦ (c ∷ bytes, rw (more, copied) refl, ap suc size, rw (more, text) refl)
    ]

-- The copy of a string into its new array stays inside the array, whatever bytes the string has, and
-- what is read from the array is the string up to its first NUL.
pub copy_string_lem :
    (fresh : ℕ → ℕ) (s : List ℕ)
    → (bytes : List ℕ) × (copy_string fresh s ≡ some bytes)
      × (length bytes ≡ length s + 1)
      × (read_string bytes ≡ some (until_nul s))
unfolding copy_string
copy_string_lem fresh s =
    let (bytes, copied, size, text) =
      strcpy_lem (new_bytes fresh (length s + 1)) s (length-new_bytes fresh (length s + 1)) in
    (bytes, copied, omega (arith, size, length-new_bytes fresh (length s + 1)), text)
