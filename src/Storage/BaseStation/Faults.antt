-- ===== src/Storage/BaseStation/Faults.antt =====
-- Where the base station storage departs from the device storage: the reads that follow a push which
-- has just filled a buffer, so that the write buffer is empty.
use ommo_sdk_external.Prelude.{
  ℕ, ◌+◌, ◌-◌, ◌<◌, ◌≡◌, refl, ◌⊎◌, inl, inr, Bool-cases, Option-cases, negsuc, int32, true, false,
  none, some, List, [], ◌∷◌, arith, length, get_elem?_in, drop-all, ltb, leb, sub32,
}
use ommo_sdk_external.Buffer.{Packet, success}
use ommo_sdk_external.Buffer.Copy.{contents, length-contents}
use ommo_sdk_external.Buffer.Log.{Stores-InBounds}
use ommo_sdk_external.Storage.{array_size, respond_one, index_test, since_both}
use ommo_sdk_external.Storage.Index.{oldest, read-at}
use ommo_sdk_external.Storage.Since.{since_both_lem}
use ommo_sdk_external.Storage.BaseStation.{
  BaseStationDataStorage, blank_packet, get_latest_data, get_data_since_index, since_read,
}
use ommo_sdk_external.Storage.BaseStation.Refine.{Holds, IsOld, All-at}
use ommo_sdk_external.Types.{BaseStationData}

-- If the write buffer of a valid base station storage has just been emptied, and more than one
-- packet has come, `GetLatestData()` reports success with a packet that is not the latest one: its
-- index is smaller.
pub latest_not_latest :
    (s : BaseStationDataStorage) (h : List BaseStationData)
    → Holds s h
    → s.buffers.write_buffer.data_num ≡ 0
    → 1 < length h
    → (p : Packet BaseStationData) × (get_latest_data s
        ≡ some (record { state = success; packets = p ∷ []; packet_count = 1 }))
      × (p.packet_idx + 1 < length h)
unfolding get_latest_data respond_one
latest_not_latest s h v empty more =
    let w = v.stores in
    let held : 0 < s.buffers.read_buffer.data_num = grind (arith, w.from_start) in
    let last = s.buffers.read_buffer.data_num - 1 in
    let (p, found, cut) = get_elem?_in s.buffers.write_buffer.packets last (omega (arith, w)) in
    let a : ltb 0 s.buffers.write_buffer.data_num ≡ false = ground arith in
    let b : ltb 0 s.buffers.read_buffer.data_num ≡ true = ground arith in
    let old : IsOld s.buffers.buffer_size (length h) p =
      All-at (IsOld s.buffers.buffer_size (length h)) s.buffers.write_buffer.packets last p
        (rw empty at v.old_slots) found in
    (p, rw (a, b, found), omega (arith, old, w.size_pos))

-- If the write buffer of a valid base station storage has just been emptied, a request for an index
-- beyond the next one, which can be any `uint32_t`, faults. Its distance to the oldest packet held,
-- as an `int32_t`, either leaves the new array no size that can be allocated, or is negative: then
-- the copy begins in front of the read buffer.
pub since_faults :
    (s : BaseStationDataStorage) (h : List BaseStationData) (start_idx : ℕ)
    → Holds s h
    → s.buffers.write_buffer.data_num ≡ 0
    → 0 < length h
    → length h < start_idx
    → start_idx < 4294967296
    → (get_data_since_index s start_idx ≡ none)
      × ((array_size
              (s.buffers.read_buffer.data_num + s.buffers.write_buffer.data_num)
              (int32 (sub32 start_idx (oldest s.buffers h)))
            ≡ none)
          ⊎ ((k : ℕ) × (int32 (sub32 start_idx (oldest s.buffers h)) ≡ negsuc k)))
unfolding get_data_since_index since_read index_test since_both
since_faults s h i v empty some_come beyond word =
    let w = v.stores in
    let held : 0 < s.buffers.read_buffer.data_num = grind (arith, w.from_start) in
    let total = s.buffers.read_buffer.data_num + s.buffers.write_buffer.data_num in
    let (x, first) = read-at s.buffers h 0 w held in
    let start : oldest s.buffers h + 0 ≡ oldest s.buffers h = omega arith in
    let a : ltb 0 s.buffers.write_buffer.data_num ≡ false = ground arith in
    let b : ltb 0 s.buffers.read_buffer.data_num ≡ true = ground arith in
    let c : leb (oldest s.buffers h) i ≡ true = ground (arith, w.held) in
    let distance = sub32 i (oldest s.buffers h) in
    elim (Bool-cases (ltb distance 2147483648)) [
      | inl near ↦
          let d : leb distance total ≡ false = ground (arith, w.held, w.unwrapped) in
          (rw (a, b, first, start, c, near, d), inl (rw (near, d) refl))
      | inr far ↦ elim (Option-cases (array_size total (int32 distance))) [
        | inl unsized ↦ (rw (a, b, first, start, c, unsized) refl, inl unsized)
        | inr (count, sized) ↦
            (rw (a, b, first, start, c, sized, far) refl, inr (4294967295 - distance, rw far refl))
      ]
    ]

-- If the write buffer of a valid base station storage has just been emptied, a request for the next
-- packet, which has not come, is answered with success and no packet.
pub since_next_succeeds :
    (s : BaseStationDataStorage) (h : List BaseStationData)
    → Holds s h
    → s.buffers.write_buffer.data_num ≡ 0
    → 0 < length h
    → get_data_since_index s (length h)
      ≡ some (record { state = success; packets = []; packet_count = 0 })
unfolding get_data_since_index since_read index_test
since_next_succeeds s h v empty some_come =
    let w = v.stores in
    let held : 0 < s.buffers.read_buffer.data_num = grind (arith, w.from_start) in
    let (x, first) = read-at s.buffers h 0 w held in
    let a : ltb 0 s.buffers.write_buffer.data_num ≡ false = ground arith in
    let b : ltb 0 s.buffers.read_buffer.data_num ≡ true = ground arith in
    let c : leb (oldest s.buffers h + 0) (length h) ≡ true = ground (arith, w.held) in
    let gone =
      drop-all (length h - oldest s.buffers h) (contents s.buffers)
        (omega (arith, w, length-contents s.buffers (Stores-InBounds w))) in
    let zero_left : length h - length h ≡ 0 = omega arith in
    rw (
      a,
      b,
      first,
      c,
      since_both_lem blank_packet s.buffers h (length h) w held (omega arith) (omega (arith, w)),
      gone,
      zero_left,
    )
