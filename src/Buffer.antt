-- ===== src/Buffer.antt =====
-- The two packet buffers that DeviceDataStorage and BaseStationDataStorage both keep
-- (include/device_data_storage.h, src/device_data_storage.cpp, and the same code once more in
-- include/basestation_data_storage.h, src/basestation_data_storage.cpp), with the parts that the two
-- classes spell alike. What they spell differently stands in Storage.
-- An array is a list; a read or write outside it is a fault, `none`. An index, a count or a
-- packet number is a natural number; where the code computes in `uint32_t` the wrap is written out.
pub mod Copy
pub mod Log
use ommo_sdk_external.Prelude.{
  ℕ, zero, suc, ◌+◌, ◌-◌, ◌%◌, Bool, Option, none, some, List, [], ◌∷◌, length, get_elem?, set,
  replicate, if◌then◌else◌, ltb, leb, ◌==◌, ◌>>=◌, u32,
}

-- `DevicePacket` and `BaseStationPacket`: what was received, with the index that the storage gives.
pub record Packet (A : Type 0) : Type 0 where
  pub packet_idx : ℕ
  pub payload : A

-- `struct BufferInfo`, with the array that `packet_buffer_ptr` points to.
pub record BufferInfo (A : Type 0) : Type 0 where
  pub data_num : ℕ
  pub packets : List (Packet A)

pub record DoubleBuffer (A : Type 0) : Type 0 where
  pub buffer_size : ℕ
  pub packet_received_num : ℕ
  pub read_buffer : BufferInfo A
  pub write_buffer : BufferInfo A

pub data DataResponseState : Type 0 where
  no_data partial_data success : DataResponseState

-- `DataResponse` and `BaseStationDataResponse`.
pub record DataResponse (A : Type 0) : Type 0 where
  pub state : DataResponseState
  pub packets : List (Packet A)
  pub packet_count : ℕ

module _ {A : Type 0} where
  -- `DataResponse{ kNoData, nullptr, 0 }`
  abbrev pub no_packets : DataResponse A
  no_packets = record { state = no_data; packets = []; packet_count = 0 }

  -- The constructor: both arrays hold `blank`, the default packet, throughout.
  unfoldable pub create : Packet A → ℕ → DoubleBuffer A
  create blank size = record {
    buffer_size = size;
    packet_received_num = 0;
    read_buffer = record { data_num = 0; packets = replicate size blank };
    write_buffer = record { data_num = 0; packets = replicate size blank };
  }

  -- A write into an array.
  abbrev pub store : List (Packet A) → ℕ → Packet A → Option (List (Packet A))
  store xs i p = if ltb i (length xs) then some (set xs i p) else none

  -- The pointers and the counts of the two buffers change places, under the exclusive lock.
  unfoldable pub switch_buffer_pointer : DoubleBuffer A → DoubleBuffer A
  switch_buffer_pointer s = record s { read_buffer = s.write_buffer; write_buffer = s.read_buffer }

  -- `packet_idx = packet_received_num_++`, the payload, and the new `data_num` of the write buffer.
  unfoldable pub write_packet : DoubleBuffer A → ℕ → A → ℕ → Option (DoubleBuffer A)
  write_packet s i x data_num = do
    packets ←
        store s.write_buffer.packets i (record { packet_idx = s.packet_received_num; payload = x })
    some (record s {
      packet_received_num = u32 (s.packet_received_num + 1);
      write_buffer = record { data_num = data_num; packets = packets };
    })

  -- `write_buffer_.data_num.store(0)`, after the lock of the switch is released.
  unfoldable pub reset_write_buffer : DoubleBuffer A → DoubleBuffer A
  reset_write_buffer s = record s {
    write_buffer = record { data_num = 0; packets = s.write_buffer.packets };
  }

  -- `PushData` while the write buffer has room: the packet is saved, and a write buffer that became
  -- full is switched with the read buffer and emptied.
  unfoldable pub save_packet : DoubleBuffer A → A → Option (DoubleBuffer A)
  save_packet s x = do
    saved ← write_packet s s.write_buffer.data_num x (s.write_buffer.data_num + 1)
    some (
        if saved.write_buffer.data_num == saved.buffer_size
        then reset_write_buffer (switch_buffer_pointer saved)
        else saved)

  -- One of the copying loops with `n` rounds to go: `packets[i] = source[idx]; i++; idx++`.
  unfoldable pub copy_loop :
      ℕ → List (Packet A) → ℕ → List (Packet A) → ℕ → Option (List (Packet A))
  copy_loop zero source idx packets i = some packets
  copy_loop (suc n) source idx packets i = do
    p ← get_elem? source idx
    written ← store packets i p
    copy_loop n source (suc idx) written (suc i)

  -- The loop over the read buffer from `idx` on, then the loop over the whole write buffer, into a
  -- new array of `count` default packets.
  unfoldable pub copy_both : Packet A → DoubleBuffer A → ℕ → ℕ → Option (List (Packet A))
  copy_both blank s idx count = do
    packets ←
        copy_loop (s.read_buffer.data_num - idx) s.read_buffer.packets idx (replicate count blank) 0
    copy_loop s.write_buffer.data_num s.write_buffer.packets 0 packets
        (s.read_buffer.data_num - idx)

  -- `GetLatestData(request_count)`
  unfoldable pub get_latest_count : Packet A → DoubleBuffer A → ℕ → Option (DataResponse A)
  get_latest_count blank s request_count =
      if ltb 0 request_count
      then (if leb request_count write_num
          then (do
            packets ←
                copy_loop request_count s.write_buffer.packets (write_num - request_count)
                  (replicate request_count blank) 0
            some (record { state = success; packets = packets; packet_count = request_count }))
          else if leb request_count total
          then (do
            packets ← copy_both blank s (total - request_count) request_count
            some (record { state = success; packets = packets; packet_count = request_count }))
          else if ltb 0 total
          then (do
            packets ← copy_both blank s 0 total
            some (record { state = partial_data; packets = packets; packet_count = total }))
          else some no_packets)
      else some no_packets
    where
      write_num : ℕ
      write_num = s.write_buffer.data_num

      total : ℕ
      total = s.read_buffer.data_num + s.write_buffer.data_num
