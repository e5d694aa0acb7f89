-- ===== src/Buffer/Log/Save.antt =====
-- `PushData` against the abstract view of Buffer.Log: the saved packet and what is dropped to make
-- room.
use ommo_sdk_external.Prelude.{
  ℕ, suc, ◌+◌, ◌-◌, ◌≤◌, ◌<◌, ◌≡◌, refl, sym, ap, ◌∙◌, inl, inr, some, List, [], ◌∷◌, ◌++◌,
  append_assoc, append-nil, arith, length, set, take, drop, length-append, length-take, drop-append,
  drop-append_ge, length-replicate, length-set, take-set, drop-drop, u32, ◌==◌, Bool-cases, ==_iff,
  ◌≢◌,
}
use ommo_sdk_external.Buffer.{
  Packet, DoubleBuffer, create, write_packet, save_packet, reset_write_buffer,
  switch_buffer_pointer,
}
use ommo_sdk_external.Buffer.Copy.{contents, store_lem}
use ommo_sdk_external.Buffer.Log.{number, Stores}

module _ {A : Type 0} where
  pub length-number : (n : ℕ) (h : List A) → length (number n h) ≡ length h
  length-number n [] = refl
  length-number n (x ∷ h) = ap suc (length-number (suc n) h)

  pub number-append :
      (n : ℕ) (h : List A) (x : A)
      → number n (h ++ (x ∷ []))
        ≡ number n h ++ (record { packet_idx = n + length h; payload = x } ∷ [])
  number-append n [] x = ap (λ (k : ℕ). record { packet_idx = k; payload = x } ∷ []) (omega arith)
  number-append n (y ∷ h) x =
      let e : n + suc (length h) ≡ suc n + length h = omega arith in
      rw e (ap (λ r. record { packet_idx = n; payload = y } ∷ r) (number-append (suc n) h x))

  -- A storage with at least one slot starts valid, with nothing stored.
  pub create-Stores :
      (blank : Packet A) (size : ℕ) → 0 < size → size ≤ 1073741824 → Stores (create blank size) []
  unfolding create
  create-Stores blank size h k = record {
    size_pos = h;
    size_small = k;
    read_len = length-replicate size blank;
    write_len = length-replicate size blank;
    write_room = h;
    read_full = inl refl;
    counted = refl;
    unwrapped = omega arith;
    held = omega arith;
    from_start = λ e. refl;
    kept = refl;
  }

  -- What is written into the slot.
  abbrev pub next_packet : DoubleBuffer A → A → Packet A
  next_packet s x = record { packet_idx = s.packet_received_num; payload = x }

  -- The state between saving a packet and switching the buffers.
  abbrev pub saved : DoubleBuffer A → A → DoubleBuffer A
  saved s x = record s {
    packet_received_num = u32 (s.packet_received_num + 1);
    write_buffer = record {
      data_num = s.write_buffer.data_num + 1;
      packets = set s.write_buffer.packets s.write_buffer.data_num (next_packet s x);
    };
  }

  pub write_packet_lem :
      {h : List A} (s : DoubleBuffer A) (x : A)
      → Stores s h
      → write_packet s s.write_buffer.data_num x (s.write_buffer.data_num + 1) ≡ some (saved s x)
  unfolding write_packet
  write_packet_lem s x v = rw (
      store_lem s.write_buffer.packets s.write_buffer.data_num (next_packet s x) (omega (arith, v)))

  -- Saving appends to what is stored.
  pub contents-saved :
      {h : List A} (s : DoubleBuffer A) (x : A)
      → Stores s h
      → contents (saved s x)
        ≡ drop
            (length h - (s.read_buffer.data_num + s.write_buffer.data_num))
            (number 0 (h ++ (x ∷ [])))
  contents-saved {h} s x v =
      let e : s.write_buffer.data_num + 1 ≡ suc s.write_buffer.data_num = omega arith in
      let next : next_packet s x ≡ record { packet_idx = 0 + length h; payload = x } =
        ap (λ (k : ℕ). record { packet_idx = k; payload = x }) (omega (arith, v)) in
      rw
        (
          e,
          take-set s.write_buffer.data_num s.write_buffer.packets (next_packet s x)
              (omega (arith, v)),
          ← append_assoc,
          v.kept,
          number-append,
          drop-append (length h - (s.read_buffer.data_num + s.write_buffer.data_num)) (number 0 h) _
              (omega (arith, length-number 0 h)),
          next,
        )
        refl

  -- The state with room left.
  pub saved-Stores :
      {h : List A} (s : DoubleBuffer A) (x : A)
      → Stores s h
      → length h + 1 < 4294967296
      → s.write_buffer.data_num + 1 ≢ s.buffer_size
      → Stores (saved s x) (h ++ (x ∷ []))
  saved-Stores {h} s x v k room =
      let len = length-append h (x ∷ []) in
      let set_len = length-set s.write_buffer.packets s.write_buffer.data_num (next_packet s x) in
      record {
        size_pos = v.size_pos;
        size_small = v.size_small;
        read_len = v.read_len;
        write_len = set_len ∙ v.write_len;
        write_room = omega (arith, v);
        read_full = v.read_full;
        counted = omega (arith, v);
        unwrapped = omega arith;
        held = omega (arith, v);
        from_start = λ e. omega (arith, v, v.from_start e);
        kept =
            contents-saved s x v
            ∙ ap (λ (n : ℕ). drop n (number 0 (h ++ (x ∷ [])))) (omega (arith, v));
      }

  -- Between the switch and the reset the counts of the buffers are those of a full read buffer and
  -- of the old read buffer.
  abbrev pub switched : DoubleBuffer A → A → DoubleBuffer A
  switched s x = record (saved s x) {
    read_buffer = (saved s x).write_buffer;
    write_buffer = s.read_buffer;
  }

  abbrev pub emptied : DoubleBuffer A → A → DoubleBuffer A
  emptied s x = record (switched s x) {
    write_buffer = record { data_num = 0; packets = s.read_buffer.packets };
  }

  contents-emptied :
      {h : List A} (s : DoubleBuffer A) (x : A)
      → Stores s h
      → contents (emptied s x)
        ≡ drop (length h - s.write_buffer.data_num) (number 0 (h ++ (x ∷ [])))
  contents-emptied {h} s x v =
      let front = take s.read_buffer.data_num s.read_buffer.packets in
      let back = take (s.write_buffer.data_num + 1) (saved s x).write_buffer.packets in
      let len : length front ≡ s.read_buffer.data_num =
        omega (arith, v, length-take s.read_buffer.data_num s.read_buffer.packets) in
      let gone : s.read_buffer.data_num - length front ≡ 0 = omega arith in
      let cut : drop s.read_buffer.data_num (front ++ back) ≡ back =
        drop-append_ge s.read_buffer.data_num front back (omega arith) ∙ rw gone in
      let e : length h - (s.read_buffer.data_num + s.write_buffer.data_num) + s.read_buffer.data_num
          ≡ length h - s.write_buffer.data_num =
        omega (arith, v) in
      append-nil back
      ∙ sym cut
      ∙ ap (drop s.read_buffer.data_num) (contents-saved s x v)
      ∙ drop-drop s.read_buffer.data_num _ _
      ∙ ap (λ (n : ℕ). drop n (number 0 (h ++ (x ∷ [])))) e

  pub emptied-Stores :
      {h : List A} (s : DoubleBuffer A) (x : A)
      → Stores s h
      → length h + 1 < 4294967296
      → s.write_buffer.data_num + 1 ≡ s.buffer_size
      → Stores (emptied s x) (h ++ (x ∷ []))
  emptied-Stores {h} s x v k full =
      let len = length-append h (x ∷ []) in
      let set_len = length-set s.write_buffer.packets s.write_buffer.data_num (next_packet s x) in
      record {
        size_pos = v.size_pos;
        size_small = v.size_small;
        read_len = set_len ∙ v.write_len;
        write_len = v.read_len;
        write_room = v.size_pos;
        read_full = inr full;
        counted = omega (arith, v);
        unwrapped = omega arith;
        held = omega (arith, v);
        from_start = λ e. absurd (omega (arith, v));
        kept =
            contents-emptied s x v
            ∙ ap (λ (n : ℕ). drop n (number 0 (h ++ (x ∷ [])))) (omega (arith, v));
      }

  -- The packet that is saved is the next of the list. The storage does not fault and stays valid.
  pub save_packet_lem :
      {h : List A} (s : DoubleBuffer A) (x : A)
      → Stores s h
      → length h + 1 < 4294967296
      → (t : DoubleBuffer A) × (save_packet s x ≡ some t)
        × Stores t (h ++ (x ∷ []))
        × (t.buffer_size ≡ s.buffer_size)
  unfolding save_packet reset_write_buffer switch_buffer_pointer
  save_packet_lem {h} s x v k = elim (Bool-cases (s.write_buffer.data_num + 1 == s.buffer_size)) [
    | inl full ↦ (
      emptied s x,
      rw (write_packet_lem s x v, full),
      emptied-Stores s x v k ((==_iff _ _).0 full),
      refl,
    )
    | inr room ↦ (
      saved s x,
      rw (write_packet_lem s x v, room),
      saved-Stores s x v k (λ e. ground (arith, e)),
      refl,
    )
  ]
