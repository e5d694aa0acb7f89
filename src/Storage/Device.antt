-- ===== src/Storage/Device.antt =====
-- `DeviceDataStorage` (include/device_data_storage.h, src/device_data_storage.cpp). Stored packets
-- are handed out as deep copies, which are equal to what they copy (Types.Copy).
pub mod Refine
pub mod History
pub mod Race
use ommo_sdk_external.Prelude.{
  ℕ, ◌+◌, ◌-◌, Bool, true, false, ◌&&◌, ◌||◌, not, Option, none, some, List, [], ◌∷◌, if◌then◌else◌,
  ltb, leb, ◌==◌, ◌>>=◌,
}
use ommo_sdk_external.Buffer.{
  Packet, DoubleBuffer, DataResponse, no_packets, create, switch_buffer_pointer, save_packet,
  write_packet, get_latest_count,
}
use ommo_sdk_external.Convert.{proto_to_tracking_device_data}
use ommo_sdk_external.Proto
use ommo_sdk_external.Storage.{respond_one, index_test, since_write, since_both, since_all}
use ommo_sdk_external.Types.{DeviceDescriptor, TrackingDeviceData}

-- `device_` and the two buffers.
pub record DeviceDataStorage : Type 0 where
  pub device : DeviceDescriptor
  pub buffers : DoubleBuffer TrackingDeviceData

-- `api::DevicePacket{}`
abbrev pub blank_packet : Packet TrackingDeviceData
blank_packet = record {
  packet_idx = 0;
  payload = record {
    siu_uuid = 0;
    port_id = 0;
    basestation_angle = 0;
    basestation_speed = 0;
    timestamp = 0;
    raw_sensor_data = [];
    poses = [];
    buttons = [];
    latency_timestamps = [];
    battery_state = record { state_of_charge = 0; current = 0; remaining_capacity = 0 };
  };
}

unfoldable pub new_storage : DeviceDescriptor → ℕ → DeviceDataStorage
new_storage device buffer_size = record {
  device = device;
  buffers = create blank_packet buffer_size;
}

-- The test at the head of PushData.
abbrev pub is_own : DeviceDescriptor → Proto.TrackingDeviceData → Bool
is_own device packet = packet.siu_uuid == device.siu_uuid && packet.port_id == device.port_id

unfoldable pub push_data :
    DeviceDataStorage → Proto.TrackingDeviceData → Option (DeviceDataStorage × Bool)
push_data s packet =
    if is_own s.device packet
    then (if ltb s.buffers.write_buffer.data_num s.buffers.buffer_size
        then (do
          received ← proto_to_tracking_device_data packet
          buffers ← save_packet s.buffers received
          some (record s { buffers = buffers }, true))
        else (do
          received ← proto_to_tracking_device_data packet
          buffers ← write_packet (switch_buffer_pointer s.buffers) 0 received 1
          some (record s { buffers = buffers }, true)))
    else some (s, false)

module _ (s : DeviceDataStorage) where
  abbrev read_num : ℕ
  read_num = s.buffers.read_buffer.data_num

  abbrev write_num : ℕ
  write_num = s.buffers.write_buffer.data_num

  abbrev read_packets : List (Packet TrackingDeviceData)
  read_packets = s.buffers.read_buffer.packets

  abbrev write_packets : List (Packet TrackingDeviceData)
  write_packets = s.buffers.write_buffer.packets

  -- `GetLatestData()`
  unfoldable pub get_latest_data : Option (DataResponse TrackingDeviceData)
  get_latest_data =
      if ltb 0 write_num
      then respond_one write_packets (write_num - 1)
      else if ltb 0 read_num
      then respond_one read_packets (read_num - 1)
      else some no_packets

  -- `GetLatestData(request_count)`
  unfoldable pub get_latest_data_count : ℕ → Option (DataResponse TrackingDeviceData)
  get_latest_data_count request_count = get_latest_count blank_packet s.buffers request_count

  -- The last two cases of GetDataSinceIndex, on the first packet of the read buffer.
  since_read : ℕ → Option (DataResponse TrackingDeviceData)
  since_read start_idx = do
    in_read ← index_test (ltb 0 read_num) read_packets 0 (λ k. leb k start_idx)
    if in_read then since_both blank_packet s.buffers start_idx else (do
      later ← index_test (ltb 0 read_num) read_packets 0 (λ k. ltb start_idx k)
      if later then since_all blank_packet s.buffers else some no_packets)

  -- `GetDataSinceIndex(start_idx)`
  unfoldable pub get_data_since_index : ℕ → Option (DataResponse TrackingDeviceData)
  unfolding since_read
  get_data_since_index start_idx = do
    behind ← index_test (ltb 0 write_num) write_packets (write_num - 1) (λ k. ltb k start_idx)
    if behind then some no_packets else (do
      in_write ← index_test (ltb 0 write_num) write_packets 0 (λ k. leb k start_idx)
      if in_write then since_write blank_packet s.buffers start_idx else (do
        past ←
            index_test (write_num == 0 && ltb 0 read_num) read_packets (read_num - 1)
              (λ k. ltb k start_idx)
        if past then some no_packets else since_read start_idx))
