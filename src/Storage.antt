-- ===== src/Storage.antt =====
-- The steps that DeviceDataStorage and BaseStationDataStorage share in GetLatestData and in
-- GetDataSinceIndex (src/device_data_storage.cpp, src/basestation_data_storage.cpp), and what those
-- functions should answer. The order of the tests differs: it stands in the two child modules.
-- `none` is an access out of range, an overflow of `int32_t`, or the exception of an array with a
-- negative size.
pub mod Index
pub mod Since
pub mod Device
pub mod BaseStation
use ommo_sdk_external.Prelude.{
  ℕ, suc, ℤ, pos, negsuc, int32, ◌==◌, ◌+◌, ◌-◌, ◌%◌, Bool, true, false, Option, none, some, List,
  [], ◌∷◌, length, get_elem?, replicate, if◌then◌else◌, ltb, leb, ◌>>=◌, u32, sub32,
}
use ommo_sdk_external.Buffer.{
  Packet, DoubleBuffer, DataResponse, no_data, partial_data, success, no_packets, copy_loop,
  copy_both,
}

-- `new T[total - idx]` in `int32_t`: the size must not be negative, and the subtraction of a negative
-- `idx` must not overflow.
abbrev pub array_size : ℕ → ℤ → Option ℕ
array_size total (pos idx) = if leb idx total then some (total - idx) else none
array_size total (negsuc idx) =
    if ltb (total + suc idx) 2147483648 then some (total + suc idx) else none

module _ {A : Type 0} where
  -- A response with one packet.
  unfoldable pub respond_one : List (Packet A) → ℕ → Option (DataResponse A)
  respond_one packets idx = do
    p ← get_elem? packets idx
    some (record { state = success; packets = p ∷ []; packet_count = 1 })

  -- `enabled && test(packets[idx].packet_idx)`: the array is read only where `enabled` holds.
  unfoldable pub index_test : Bool → List (Packet A) → ℕ → (ℕ → Bool) → Option Bool
  index_test false packets idx test = some false
  index_test true packets idx test = do p ← get_elem? packets idx; some (test p.packet_idx)

  -- A loop that reads from slot `idx` on: a negative slot lies in front of the array.
  abbrev pub from_slot : ℤ → (ℕ → Option (List (Packet A))) → Option (List (Packet A))
  from_slot (pos idx) copy = copy idx
  from_slot (negsuc idx) copy = none

  -- All that is asked for is in the write buffer. The size is a `uint32_t`.
  unfoldable pub since_write : Packet A → DoubleBuffer A → ℕ → Option (DataResponse A)
  since_write blank s start_idx = do
    first ← get_elem? s.write_buffer.packets 0
    let idx = sub32 start_idx first.packet_idx
    let count = sub32 s.write_buffer.data_num idx
    packets ←
        if count == 0
        then some []
        else from_slot (int32 idx)
            (λ i. copy_loop count s.write_buffer.packets i (replicate count blank) 0)
    some (record { state = success; packets = packets; packet_count = count })

  -- The packets begin in the read buffer.
  unfoldable pub since_both : Packet A → DoubleBuffer A → ℕ → Option (DataResponse A)
  since_both blank s start_idx = do
    first ← get_elem? s.read_buffer.packets 0
    let idx = int32 (sub32 start_idx first.packet_idx)
    count ← array_size (s.read_buffer.data_num + s.write_buffer.data_num) idx
    packets ← from_slot idx (λ i. copy_both blank s i count)
    some (record {
      state = success;
      packets = packets;
      packet_count =
          sub32 (u32 (s.read_buffer.data_num + s.write_buffer.data_num + first.packet_idx))
            start_idx;
    })

  -- Older packets than those held are asked for: all that is held is given.
  unfoldable pub since_all : Packet A → DoubleBuffer A → Option (DataResponse A)
  since_all blank s = do
    packets ← copy_both blank s 0 (s.read_buffer.data_num + s.write_buffer.data_num)
    some (record {
      state = partial_data;
      packets = packets;
      packet_count = s.write_buffer.data_num + s.read_buffer.data_num;
    })

  -- The packets with the index `start_idx` or a later one.
  abbrev pub from_index : ℕ → List (Packet A) → List (Packet A)
  from_index start_idx [] = []
  from_index start_idx (p ∷ ps) =
      if leb start_idx p.packet_idx then p ∷ from_index start_idx ps else from_index start_idx ps

  -- The oldest packet is the one asked for or an earlier one, so nothing asked for is missing.
  abbrev pub reaches : ℕ → List (Packet A) → Bool
  reaches start_idx [] = false
  reaches start_idx (p ∷ ps) = leb p.packet_idx start_idx

  abbrev pub respond_all : Bool → List (Packet A) → DataResponse A
  respond_all complete [] = no_packets
  respond_all complete (p ∷ ps) = record {
    state = if complete then success else partial_data;
    packets = p ∷ ps;
    packet_count = length (p ∷ ps);
  }

  -- What a request for everything since `start_idx` should give of the packets `xs`: those with that
  -- index or a later one, complete only if the oldest one held is not later.
  abbrev pub since_of : ℕ → List (Packet A) → DataResponse A
  since_of start_idx xs = respond_all (reaches start_idx xs) (from_index start_idx xs)
