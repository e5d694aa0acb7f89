-- ===== src/Storage/Since.antt =====
-- The branches of GetDataSinceIndex on a valid storage, against the packets from the requested
-- index on.
use ommo_sdk_external.Prelude.{
  ℕ, ◌+◌, ◌-◌, ◌≤◌, ◌<◌, ◌≡◌, sym, ap, ◌∙◌, true, some, List, arith, length, take, drop, take-drop,
  drop-append_ge, length-take, leb, ltb, ◌==◌, sub32, u32, false,
}
use ommo_sdk_external.Buffer.{Packet, DoubleBuffer, DataResponse, success, partial_data}
use ommo_sdk_external.Buffer.Copy.{
  contents, InBounds, length-contents, copy_both_lem, copy_loop_whole,
}
use ommo_sdk_external.Buffer.Log.{Stores, Stores-InBounds}
use ommo_sdk_external.Storage.{since_write, since_both, since_all}
use ommo_sdk_external.Storage.Index.{oldest, read-at, write-at}

module _ {A : Type 0} where
  -- The answer with everything from index `i` on.
  abbrev pub rest_from : ℕ → DoubleBuffer A → List A → DataResponse A
  rest_from i s h = record {
    state = success;
    packets = drop (i - oldest s h) (contents s);
    packet_count = length h - i;
  }

  -- The part of the write buffer from its slot `j` on.
  write_rest :
      (s : DoubleBuffer A) (j count : ℕ)
      → InBounds s
      → j + count ≡ s.write_buffer.data_num
      → take count (drop j s.write_buffer.packets) ≡ drop (s.read_buffer.data_num + j) (contents s)
  write_rest s j count v e =
      let front = take s.read_buffer.data_num s.read_buffer.packets in
      let len : length front ≡ s.read_buffer.data_num =
        omega (arith, v, length-take s.read_buffer.data_num s.read_buffer.packets) in
      let back = take s.write_buffer.data_num s.write_buffer.packets in
      rw (take-drop count j s.write_buffer.packets, e)
        (sym (
          drop-append_ge (s.read_buffer.data_num + j) front back (omega arith)
          ∙ ap (λ (k : ℕ). drop k back) (omega arith)))

  pub since_write_lem :
      (blank : Packet A) (s : DoubleBuffer A) (h : List A) (i : ℕ)
      → Stores s h
      → oldest s h + s.read_buffer.data_num ≤ i
      → i < length h
      → since_write blank s i ≡ some (rest_from i s h)
  unfolding since_write
  since_write_lem blank s h i v lo hi =
      let b = Stores-InBounds v in
      let start = oldest s h + s.read_buffer.data_num in
      let (x, first) = write-at s h 0 v (omega (arith, v)) in
      let idx : sub32 i (start + 0) ≡ i - start = omega (arith, v) in
      let small : ltb (i - start) 2147483648 ≡ true = ground (arith, v) in
      let count : sub32 s.write_buffer.data_num (i - start) ≡ length h - i = omega (arith, v) in
      let some_left : (length h - i == 0) ≡ false = ground arith in
      rw
        (
          first,
          idx,
          small,
          count,
          some_left,
          copy_loop_whole (length h - i) s.write_buffer.packets (i - start) blank
              (omega (arith, v, b)),
          write_rest s (i - start) (length h - i) b (omega (arith, v)),
        )
        (ap
          (λ (k : ℕ). some (record {
            state = success;
            packets = drop k (contents s);
            packet_count = length h - i;
          }))
          (omega (arith, v)))

  pub since_both_lem :
      (blank : Packet A) (s : DoubleBuffer A) (h : List A) (i : ℕ)
      → Stores s h
      → 0 < s.read_buffer.data_num
      → oldest s h ≤ i
      → i ≤ oldest s h + s.read_buffer.data_num
      → since_both blank s i ≡ some (rest_from i s h)
  unfolding since_both
  since_both_lem blank s h i v held lo hi =
      let b = Stores-InBounds v in
      let total = s.read_buffer.data_num + s.write_buffer.data_num in
      let (x, first) = read-at s h 0 v held in
      let idx : sub32 i (oldest s h + 0) ≡ i - oldest s h = omega (arith, v) in
      let small : ltb (i - oldest s h) 2147483648 ≡ true = ground (arith, v) in
      let fits : leb (i - oldest s h) total ≡ true = ground (arith, v.held) in
      let size : total - (i - oldest s h) ≡ length h - i = omega (arith, v) in
      let count : sub32 (u32 (total + (oldest s h + 0))) i ≡ length h - i = omega (arith, v) in
      rw (
        first,
        idx,
        small,
        fits,
        size,
        count,
        copy_both_lem blank s (i - oldest s h) (length h - i) b (omega arith) (omega (arith, v)),
      )

  pub since_all_lem :
      (blank : Packet A) (s : DoubleBuffer A) (h : List A)
      → Stores s h
      → since_all blank s
        ≡ some (record {
          state = partial_data;
          packets = contents s;
          packet_count = length (contents s);
        })
  unfolding since_all
  since_all_lem blank s h v =
      let b = Stores-InBounds v in
      rw
        (copy_both_lem blank s 0 (s.read_buffer.data_num + s.write_buffer.data_num) b (omega arith)
          (omega arith))
        (ap
          (λ (k : ℕ).
            some (record { state = partial_data; packets = contents s; packet_count = k }))
          (omega (arith, length-contents s b)))
