-- ===== src/Buffer/Log.antt =====
-- The abstract view of a storage: the list of everything that was ever saved, oldest first, of which
-- the last packets are still held, each with its position in that list for an index.
pub mod Save
use ommo_sdk_external.Prelude.{
  ℕ, zero, suc, ◌+◌, ◌-◌, ◌≤◌, ◌<◌, ◌≡◌, refl, sym, ap, ◌∙◌, ◌⊎◌, inl, inr, Bool, true, false,
  Option, none, some, List, [], ◌∷◌, ◌++◌, arith, length, get_elem?, take, drop, length-append,
  length-take, length-drop, take-drop, drop-append, drop-append_ge, take-all, drop-all, ltb, leb,
  if◌then◌else◌, drop-nil,
}
use ommo_sdk_external.Buffer.{
  Packet, DoubleBuffer, DataResponse, DataResponseState, no_data, partial_data, success, no_packets,
  get_latest_count, create, copy_loop,
}
use ommo_sdk_external.Buffer.Copy.{
  contents, InBounds, length-contents, copy_loop_whole, copy_both_lem,
}

module _ {A : Type 0} where
  -- The values of a list with consecutive indices.
  abbrev pub number : ℕ → List A → List (Packet A)
  number n [] = []
  number n (x ∷ xs) = record { packet_idx = n; payload = x } ∷ number (suc n) xs

  -- A valid storage that has been given the values `h`: it holds the last of them, at least
  -- `buffer_size` or all, and its counters have not wrapped.
  pub record Stores (s : DoubleBuffer A) (h : List A) : Type 0 where
    pub size_pos : 0 < s.buffer_size
    pub size_small : s.buffer_size ≤ 1073741824
    pub read_len : length s.read_buffer.packets ≡ s.buffer_size
    pub write_len : length s.write_buffer.packets ≡ s.buffer_size
    pub write_room : s.write_buffer.data_num < s.buffer_size
    pub read_full : (s.read_buffer.data_num ≡ 0) ⊎ (s.read_buffer.data_num ≡ s.buffer_size)
    pub counted : s.packet_received_num ≡ length h
    pub unwrapped : length h < 4294967296
    pub held : s.read_buffer.data_num + s.write_buffer.data_num ≤ length h
    pub from_start : s.read_buffer.data_num ≡ 0 → s.write_buffer.data_num ≡ length h
    pub kept :
        contents s
        ≡ drop (length h - (s.read_buffer.data_num + s.write_buffer.data_num)) (number 0 h)

  -- What a request for the latest `n` packets should give of the packets `xs`.
  abbrev pub latest_of : ℕ → List (Packet A) → DataResponse A
  latest_of n xs =
      if ltb 0 n
      then (if leb n (length xs)
          then record { state = success; packets = drop (length xs - n) xs; packet_count = n }
          else if ltb 0 (length xs)
          then record { state = partial_data; packets = xs; packet_count = length xs }
          else no_packets)
      else no_packets

  pub Stores-InBounds : {s : DoubleBuffer A} {h : List A} → Stores s h → InBounds s
  Stores-InBounds v = ground arith

  -- `GetLatestData(request_count)` on a storage within bounds faults nowhere and answers with the
  -- last packets that it holds.
  pub get_latest_count_lem :
      (blank : Packet A) (s : DoubleBuffer A) (n : ℕ)
      → InBounds s
      → get_latest_count blank s n ≡ some (latest_of n (contents s))
  unfolding get_latest_count
  get_latest_count_lem blank s n v = ground (
    arith,
    length-contents s v,
    copy_both_lem blank s 0 (rn + wn) v,
    copy_both_lem blank s (rn + wn - n) n v,
    copy_loop_whole n s.write_buffer.packets (wn - n) blank,
    cut,
  )
    where
      rn : ℕ
      rn = s.read_buffer.data_num

      wn : ℕ
      wn = s.write_buffer.data_num

      cut : n ≤ wn → take n (drop (wn - n) s.write_buffer.packets) ≡ drop (rn + wn - n) (contents s)
      cut h =
          let e : wn - n + n ≡ wn = omega arith in
          let len : length (take rn s.read_buffer.packets) ≡ rn =
            omega (arith, v, length-take rn s.read_buffer.packets) in
          rw
            (
              take-drop n (wn - n) s.write_buffer.packets,
              e,
              drop-append_ge (rn + wn - n) (take rn s.read_buffer.packets)
                  (take wn s.write_buffer.packets) (omega arith),
              len,
            )
            (ap (λ (k : ℕ). drop k (take wn s.write_buffer.packets)) (omega arith))
