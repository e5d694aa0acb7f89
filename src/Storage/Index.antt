-- ===== src/Storage/Index.antt =====
-- Indices of stored packets in a valid storage.
use ommo_sdk_external.Prelude.{
  ℕ, zero, suc, ◌+◌, ◌-◌, ◌<◌, ◌≡◌, refl, sym, ap, ◌∙◌, inl, inr, Bool, true, some, List, [], ◌∷◌,
  ◌++◌, arith, length, get_elem?, take, drop, length-drop, length-take, if◌then◌else◌, ltb, leb,
  drop-all, Bool-cases,
}
use ommo_sdk_external.Buffer.{Packet, DoubleBuffer, DataResponse, no_packets, success, partial_data}
use ommo_sdk_external.Buffer.Copy.{contents, InBounds}
use ommo_sdk_external.Buffer.Log.{number, Stores, Stores-InBounds}
use ommo_sdk_external.Buffer.Log.Save.{length-number}
use ommo_sdk_external.Storage.{from_index, respond_all, since_of}

module _ {A : Type 0} where
  get_elem?-take : (k : ℕ) (xs : List A) (j : ℕ) → j < k → get_elem? (take k xs) j ≡ get_elem? xs j
  get_elem?-take zero xs j h = absurd (omega arith)
  get_elem?-take (suc k) [] j h = refl
  get_elem?-take (suc k) (x ∷ xs) zero h = refl
  get_elem?-take (suc k) (x ∷ xs) (suc j) h = get_elem?-take k xs j (omega arith)

  get_elem?-append_left :
      (xs ys : List A) (j : ℕ) → j < length xs → get_elem? (xs ++ ys) j ≡ get_elem? xs j
  get_elem?-append_left [] ys j h = absurd (omega arith)
  get_elem?-append_left (x ∷ xs) ys zero h = refl
  get_elem?-append_left (x ∷ xs) ys (suc j) h = get_elem?-append_left xs ys j (omega arith)

  get_elem?-append_right :
      (xs ys : List A) (j : ℕ) → get_elem? (xs ++ ys) (length xs + j) ≡ get_elem? ys j
  get_elem?-append_right [] ys j = ap (get_elem? ys) (omega arith)
  get_elem?-append_right (x ∷ xs) ys j =
      let e : suc (length xs) + j ≡ suc (length xs + j) = omega arith in
      rw e (get_elem?-append_right xs ys j)

module _ {A : Type 0} where
  pub drop-number : (k n : ℕ) (h : List A) → drop k (number n h) ≡ number (n + k) (drop k h)
  drop-number zero n h = ap (λ (m : ℕ). number m h) (omega arith)
  drop-number (suc k) n [] = refl
  drop-number (suc k) n (x ∷ h) =
      drop-number k (suc n) h ∙ ap (λ (m : ℕ). number m (drop k h)) (omega arith)

  get_elem?-number :
      (n : ℕ) (h : List A) (j : ℕ)
      → j < length h
      → (x : A) × (get_elem? (number n h) j ≡ some (record { packet_idx = n + j; payload = x }))
        × (get_elem? h j ≡ some x)
  get_elem?-number n [] j k = absurd (omega arith)
  get_elem?-number n (x ∷ h) zero k =
      (x, ap (λ (m : ℕ). some (record { packet_idx = m; payload = x })) (omega arith), refl)
  get_elem?-number n (x ∷ h) (suc j) k =
      let (y, e, f) = get_elem?-number (suc n) h j (omega arith) in
      (y, e ∙ ap (λ (m : ℕ). some (record { packet_idx = m; payload = y })) (omega arith), f)

  -- The index of the oldest packet held.
  abbrev pub oldest : DoubleBuffer A → List A → ℕ
  oldest s h = length h - (s.read_buffer.data_num + s.write_buffer.data_num)

  pub contents-number :
      (s : DoubleBuffer A) (h : List A)
      → Stores s h
      → contents s ≡ number (oldest s h) (drop (oldest s h) h)
  contents-number s h v =
      v.kept
      ∙ drop-number (oldest s h) 0 h
      ∙ ap (λ (m : ℕ). number m (drop (oldest s h) h)) (omega arith)

  contents-at :
      (s : DoubleBuffer A) (h : List A) (j : ℕ)
      → Stores s h
      → j < s.read_buffer.data_num + s.write_buffer.data_num
      → (x : A) × (get_elem? (contents s) j
          ≡ some (record { packet_idx = oldest s h + j; payload = x }))
  contents-at s h j v k =
      let (x, e, f) =
        get_elem?-number (oldest s h) (drop (oldest s h) h) j
          (omega (arith, v, length-drop (oldest s h) h)) in
      (x, rw (contents-number s h v) e)

  pub read-elem :
      (s : DoubleBuffer A) (j : ℕ)
      → InBounds s
      → j < s.read_buffer.data_num
      → get_elem? s.read_buffer.packets j ≡ get_elem? (contents s) j
  read-elem s j v k =
      sym (get_elem?-take s.read_buffer.data_num s.read_buffer.packets j k)
      ∙ sym (
          get_elem?-append_left (take s.read_buffer.data_num s.read_buffer.packets) _ j
            (omega (arith, v, length-take s.read_buffer.data_num s.read_buffer.packets)))

  pub write-elem :
      (s : DoubleBuffer A) (j : ℕ)
      → InBounds s
      → j < s.write_buffer.data_num
      → get_elem? s.write_buffer.packets j ≡ get_elem? (contents s) (s.read_buffer.data_num + j)
  write-elem s j v k =
      let front = take s.read_buffer.data_num s.read_buffer.packets in
      let len : length front ≡ s.read_buffer.data_num =
        omega (arith, v, length-take s.read_buffer.data_num s.read_buffer.packets) in
      sym (get_elem?-take s.write_buffer.data_num s.write_buffer.packets j k)
      ∙ sym (get_elem?-append_right front _ j)
      ∙ ap (λ (m : ℕ). get_elem? (contents s) (m + j)) len

  -- Slot `j` of the read buffer holds the packet that came `j` after the oldest.
  pub read-at :
      (s : DoubleBuffer A) (h : List A) (j : ℕ)
      → Stores s h
      → j < s.read_buffer.data_num
      → (x : A) × (get_elem? s.read_buffer.packets j
          ≡ some (record { packet_idx = oldest s h + j; payload = x }))
  read-at s h j v k =
      let (x, e) = contents-at s h j v (omega arith) in (x, read-elem s j (Stores-InBounds v) k ∙ e)

  -- Slot `j` of the write buffer goes on behind the read buffer.
  pub write-at :
      (s : DoubleBuffer A) (h : List A) (j : ℕ)
      → Stores s h
      → j < s.write_buffer.data_num
      → (x : A) × (get_elem? s.write_buffer.packets j
          ≡ some (record { packet_idx = oldest s h + s.read_buffer.data_num + j; payload = x }))
  write-at s h j v k =
      let (x, e) = contents-at s h (s.read_buffer.data_num + j) v (omega arith) in
      (
        x,
        write-elem s j (Stores-InBounds v) k
            ∙ e
            ∙ ap (λ (m : ℕ). some (record { packet_idx = m; payload = x })) (omega arith),
      )

  -- On numbered packets, those from an index on are a suffix.
  from_index-number : (i n : ℕ) (h : List A) → from_index i (number n h) ≡ drop (i - n) (number n h)
  from_index-number i n [] = sym (drop-all (i - n) (number {A = A} n []) (omega arith))
  from_index-number i n (x ∷ h) =
      let rest = from_index-number i (suc n) h in
      elim (Bool-cases (leb i n)) [
        | inl early ↦
            let a : i - n ≡ 0 = ground arith in
            let b : i - suc n ≡ 0 = ground arith in rw (early, rest, a, b)
        | inr late ↦ let a : i - n ≡ suc (i - suc n) = ground arith in rw (late, rest, a)
      ]

  -- The same request in terms of the index `d` of the oldest packet.
  abbrev pub since_numbered : ℕ → ℕ → List (Packet A) → DataResponse A
  since_numbered i d xs =
      if leb (d + length xs) i
      then no_packets
      else if ltb 0 (length xs)
      then (if leb d i
          then record {
            state = success;
            packets = drop (i - d) xs;
            packet_count = d + length xs - i;
          }
          else record { state = partial_data; packets = xs; packet_count = length xs })
      else no_packets

  respond_all_pos :
      (b : Bool) (xs : List (Packet A))
      → 0 < length xs
      → respond_all b xs ≡ record {
        state = if b then success else partial_data;
        packets = xs;
        packet_count = length xs;
      }
  respond_all_pos b [] h = absurd (omega arith)
  respond_all_pos b (x ∷ xs) h = refl

  since_of-numbered :
      (i n : ℕ) (h : List A) → since_of i (number n h) ≡ since_numbered i n (number n h)
  since_of-numbered i n [] = ground arith
  since_of-numbered i n (x ∷ h) =
      let all = number n (x ∷ h) in
      let len = length-number n (x ∷ h) in
      let some_held : ltb 0 (length all) ≡ true = ground arith in
      rw (from_index-number i n (x ∷ h)) (elim (Bool-cases (leb (n + length all) i)) [
        | inl past ↦ rw (past, drop-all (i - n) all (ground arith)) refl
        | inr has ↦
            rw
              (
                has,
                respond_all_pos (leb n i) (drop (i - n) all)
                    (ground (arith, length-drop (i - n) all)),
              )
              (elim (Bool-cases (leb n i)) [
                | inl exact ↦
                    let c : length (drop (i - n) all) ≡ n + length all - i =
                      ground (arith, length-drop (i - n) all) in
                    rw (exact, c, some_held)
                | inr early ↦ let z : i - n ≡ 0 = ground arith in rw (early, z, some_held)
              ])
      ])

  -- What `since_of` answers on a valid storage.
  pub since_of-contents :
      (i : ℕ) (s : DoubleBuffer A) (h : List A)
      → Stores s h
      → since_of i (contents s) ≡ since_numbered i (oldest s h) (contents s)
  since_of-contents i s h v =
      rw (contents-number s h v) (since_of-numbered i (oldest s h) (drop (oldest s h) h))
