-- ===== src/Buffer/Copy.antt =====
-- The copying loops of the storages, within the bounds of their arrays.
use ommo_sdk_external.Prelude.{
  ℕ, zero, suc, ◌+◌, ◌-◌, ◌≤◌, ◌<◌, ◌≡◌, ap, ◌∙◌, some, List, ◌++◌, append_assoc, append-nil, arith,
  length, take, drop, set, replicate, length-set, get_elem?_in, take-set, drop-set_after,
  take-append-drop, length-replicate, drop-all, length-take, length-drop, length-append, take-drop,
  drop-append, take-append_self,
}
use ommo_sdk_external.Buffer.{Packet, DoubleBuffer, store, copy_loop, copy_both}

module _ {A : Type 0} where
  pub store_lem :
      (xs : List (Packet A)) (i : ℕ) (p : Packet A)
      → i < length xs
      → store xs i p ≡ some (set xs i p)
  store_lem xs i p h = ground arith

  -- A loop within the bounds of both arrays faults nowhere, and writes the `n` packets from `idx` on
  -- at the `n` places from `i` on.
  pub copy_loop_lem :
      (n : ℕ) (source : List (Packet A)) (idx : ℕ) (packets : List (Packet A)) (i : ℕ)
      → idx + n ≤ length source
      → i + n ≤ length packets
      → copy_loop n source idx packets i
        ≡ some (take i packets ++ (take n (drop idx source) ++ drop (i + n) packets))
  unfolding copy_loop
  copy_loop_lem zero source idx packets i h k =
      let e : i + 0 ≡ i = omega arith in rw (e, take-append-drop i packets)
  copy_loop_lem (suc n) source idx packets i h k =
      let (p, found, cut) = get_elem?_in source idx (omega arith) in
      let e : i + suc n ≡ suc i + n = omega arith in
      rw (found, store_lem packets i p (omega arith), cut, e)
        (copy_loop_lem n source (suc idx) (set packets i p) (suc i) (omega arith)
            (omega (arith, length-set packets i p))
          ∙ rw (take-set i packets p (omega arith), drop-set_after i n packets p, append_assoc))

  -- A loop that fills a whole new array.
  pub copy_loop_whole :
      (n : ℕ) (source : List (Packet A)) (idx : ℕ) (blank : Packet A)
      → idx + n ≤ length source
      → copy_loop n source idx (replicate n blank) 0 ≡ some (take n (drop idx source))
  copy_loop_whole n source idx blank h =
      copy_loop_lem n source idx (replicate n blank) 0 h (omega (arith, length-replicate n blank))
      ∙ rw (
        drop-all (0 + n) (replicate n blank) (omega (arith, length-replicate n blank)),
        append-nil,
      )

  -- A loop that goes on behind the packets `front`, and fills the array.
  copy_loop_rest :
      (n : ℕ) (source front rest : List (Packet A)) (i : ℕ)
      → i ≡ length front
      → n ≤ length source
      → length rest ≡ n
      → copy_loop n source 0 (front ++ rest) i ≡ some (front ++ take n source)
  copy_loop_rest n source front rest i e h k =
      let total : length (front ++ rest) ≡ i + n = omega (arith, length-append front rest) in
      copy_loop_lem n source 0 (front ++ rest) i (omega arith) (omega arith)
      ∙ rw (drop-all (i + n) (front ++ rest) (omega arith), e, take-append_self, append-nil)

  -- The packets that a reader finds: those of the read buffer, then those of the write buffer.
  abbrev pub contents : DoubleBuffer A → List (Packet A)
  contents s =
      take s.read_buffer.data_num s.read_buffer.packets
      ++ take s.write_buffer.data_num s.write_buffer.packets

  -- The counts stay within the arrays.
  pub record InBounds (s : DoubleBuffer A) : Type 0 where
    pub read_in : s.read_buffer.data_num ≤ length s.read_buffer.packets
    pub write_in : s.write_buffer.data_num ≤ length s.write_buffer.packets

  pub length-contents :
      (s : DoubleBuffer A)
      → InBounds s
      → length (contents s) ≡ s.read_buffer.data_num + s.write_buffer.data_num
  length-contents s v = omega (
    arith,
    length-append (take s.read_buffer.data_num s.read_buffer.packets)
        (take s.write_buffer.data_num s.write_buffer.packets),
    length-take s.read_buffer.data_num s.read_buffer.packets,
    length-take s.write_buffer.data_num s.write_buffer.packets,
  )

  -- The two loops, from index `idx` of the read buffer on, copy all that is stored but the first
  -- `idx` packets.
  pub copy_both_lem :
      (blank : Packet A) (s : DoubleBuffer A) (idx count : ℕ)
      → InBounds s
      → idx ≤ s.read_buffer.data_num
      → count + idx ≡ s.read_buffer.data_num + s.write_buffer.data_num
      → copy_both blank s idx count ≡ some (drop idx (contents s))
  unfolding copy_both
  copy_both_lem blank s idx count v h c =
      rw
        (copy_loop_lem (rn - idx) read idx (replicate count blank) 0 (omega (arith, v))
          (omega (arith, length-replicate count blank)))
        (copy_loop_rest wn s.write_buffer.packets (take (rn - idx) (drop idx read))
            (drop (0 + (rn - idx)) (replicate count blank)) (rn - idx) front v.write_in
            (omega (
              arith,
              length-drop (0 + (rn - idx)) (replicate count blank),
              length-replicate count blank,
            ))
          ∙ ap some same)
    where
      rn : ℕ
      rn = s.read_buffer.data_num

      wn : ℕ
      wn = s.write_buffer.data_num

      read : List (Packet A)
      read = s.read_buffer.packets

      front : rn - idx ≡ length (take (rn - idx) (drop idx read))
      front = omega (arith, v, length-take (rn - idx) (drop idx read), length-drop idx read)

      same :
          take (rn - idx) (drop idx read) ++ take wn s.write_buffer.packets ≡ drop idx (contents s)
      same =
          let e : idx + (rn - idx) ≡ rn = omega arith in
          rw (
            take-drop (rn - idx) idx read,
            e,
            drop-append idx (take rn read) (take wn s.write_buffer.packets)
                (omega (arith, length-take rn read, v)),
          )
