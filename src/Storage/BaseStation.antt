-- ===== src/Storage/BaseStation.antt =====
-- `BaseStationDataStorage` (include/basestation_data_storage.h, src/basestation_data_storage.cpp).
-- ProtoToBaseStationData copies a message field by field into the struct, so a message is written as
-- the struct. A call data object is known by a number; what an operation does to it is a result.
pub mod Refine
pub mod Faults
use ommo_sdk_external.Prelude.{
  ℕ, ◌+◌, ◌-◌, Bool, true, false, not, Option, none, some, List, [], ◌∷◌, if◌then◌else◌, ltb, leb,
  ◌==◌, ◌>>=◌, get_elem?, set, is_some, u32,
}
use ommo_sdk_external.Buffer.{
  Packet, DoubleBuffer, DataResponse, no_packets, create, store, switch_buffer_pointer, save_packet,
  get_latest_count,
}
use ommo_sdk_external.Storage.{respond_one, index_test, since_write, since_both, since_all}
use ommo_sdk_external.Types.{BaseStationData, SpecParamf}

pub record BaseStationDataStorage : Type 0 where
  pub buffers : DoubleBuffer BaseStationData
  pub base_station_stream : Option ℕ

abbrev blank_param : SpecParamf
blank_param = record { value = 0; out_of_spec = false }

-- `api::BaseStationPacket{}`
abbrev pub blank_packet : Packet BaseStationData
blank_packet = record {
  packet_idx = 0;
  payload = record {
    accel_figure_of_merit = blank_param;
    max_phase_std = blank_param;
    max_phase_drift = blank_param;
    temp_diff_from_calib_c = blank_param;
    mean_rotation_rate_hz = blank_param;
    tilt_angle_deg = blank_param;
    max_mag_rms_res = blank_param;
    accel_dc_magnitude_g = blank_param;
  };
}

unfoldable pub new_storage : ℕ → BaseStationDataStorage
new_storage buffer_size = record {
  buffers = create blank_packet buffer_size;
  base_station_stream = none;
}

-- The branch of PushData for a full write buffer: the index goes into slot 0, the data into slot
-- `write_idx`.
unfoldable pub push_when_full :
    DoubleBuffer BaseStationData → BaseStationData → Option (DoubleBuffer BaseStationData)
push_when_full s packet = do
  let write_idx = s.write_buffer.data_num
  let t = switch_buffer_pointer s
  first ← get_elem? t.write_buffer.packets 0
  indexed ← store t.write_buffer.packets 0 (record first { packet_idx = t.packet_received_num })
  slot ← get_elem? indexed write_idx
  written ← store indexed write_idx (record slot { payload = packet })
  some (record t {
    packet_received_num = u32 (t.packet_received_num + 1);
    write_buffer = record { data_num = 1; packets = written };
  })

unfoldable pub push_data :
    BaseStationDataStorage → BaseStationData → Option (BaseStationDataStorage × Bool)
push_data s packet = do
  buffers ←
      if ltb s.buffers.write_buffer.data_num s.buffers.buffer_size
      then save_packet s.buffers packet
      else push_when_full s.buffers packet
  some (record s { buffers = buffers }, true)

module _ (s : BaseStationDataStorage) where
  abbrev read_num : ℕ
  read_num = s.buffers.read_buffer.data_num

  abbrev write_num : ℕ
  write_num = s.buffers.write_buffer.data_num

  abbrev read_packets : List (Packet BaseStationData)
  read_packets = s.buffers.read_buffer.packets

  abbrev write_packets : List (Packet BaseStationData)
  write_packets = s.buffers.write_buffer.packets

  -- `GetLatestData()`: with an empty write buffer the index is that of the read buffer, and the
  -- packet is taken from the write buffer.
  unfoldable pub get_latest_data : Option (DataResponse BaseStationData)
  get_latest_data =
      if ltb 0 write_num
      then respond_one write_packets (write_num - 1)
      else if ltb 0 read_num
      then respond_one write_packets (read_num - 1)
      else some no_packets

  -- `GetLatestData(request_count)`
  unfoldable pub get_latest_data_count : ℕ → Option (DataResponse BaseStationData)
  get_latest_data_count request_count = get_latest_count blank_packet s.buffers request_count

  -- The last two cases of GetDataSinceIndex, on the first packet of the read buffer.
  since_read : ℕ → Option (DataResponse BaseStationData)
  since_read start_idx = do
    in_read ← index_test (ltb 0 read_num) read_packets 0 (λ k. leb k start_idx)
    if in_read then since_both blank_packet s.buffers start_idx else (do
      later ← index_test (ltb 0 read_num) read_packets 0 (λ k. ltb start_idx k)
      if later then since_all blank_packet s.buffers else some no_packets)

  -- `GetDataSinceIndex(start_idx)`: only the write buffer is asked whether the request is too new.
  unfoldable pub get_data_since_index : ℕ → Option (DataResponse BaseStationData)
  unfolding since_read
  get_data_since_index start_idx = do
    behind ← index_test (ltb 0 write_num) write_packets (write_num - 1) (λ k. ltb k start_idx)
    if behind then some no_packets else (do
      in_write ← index_test (ltb 0 write_num) write_packets 0 (λ k. leb k start_idx)
      if in_write then since_write blank_packet s.buffers start_idx else since_read start_idx)

  unfoldable pub set_data_stream : Option ℕ → BaseStationDataStorage
  set_data_stream call_data = record s { base_station_stream = call_data }

  unfoldable pub remove_data_stream : BaseStationDataStorage
  remove_data_stream = record s { base_station_stream = none }

  -- The call data whose CancelCall is called, if any.
  unfoldable pub cancel_data_stream : Option ℕ
  cancel_data_stream = s.base_station_stream

  unfoldable pub data_stream_exists : Bool
  data_stream_exists = is_some s.base_station_stream

  -- The call data object that is being destroyed forgets itself here.
  unfoldable pub clear_association : ℕ → BaseStationDataStorage × Bool
  clear_association call_data = elim s.base_station_stream [
    | none ↦ (s, false)
    | some c ↦
        if c == call_data then (record s { base_station_stream = none }, true) else (s, false)
  ]
