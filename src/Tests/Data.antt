-- ===== src/Tests/Data.antt =====
-- Concrete data for the tests.
use ommo_sdk_external.Prelude.{◌≡◌, refl, false, none, some, [], ◌∷◌, arith, inl, inr}
use ommo_sdk_external.Buffer.{Packet, DoubleBuffer}
use ommo_sdk_external.Buffer.Log.{Stores}
use ommo_sdk_external.Convert.{
  proto_to_tracking_device_data, convert_poses, pose_at, convert_battery,
}
use ommo_sdk_external.Proto
use ommo_sdk_external.Storage.BaseStation.{BaseStationDataStorage}
use ommo_sdk_external.Storage.BaseStation
use ommo_sdk_external.Storage.BaseStation.Refine
use ommo_sdk_external.Storage.Device.{DeviceDataStorage}
use ommo_sdk_external.Storage.Device
use ommo_sdk_external.Types.{
  DeviceDescriptor, DeviceId, TrackingDeviceData, BaseStationData, DataRequest,
}

module _ {A : Type 0} where
  -- Two packets, with the write buffer just emptied; and one more.
  abbrev pub two_packets : Packet A → A → DoubleBuffer A
  two_packets blank x = record {
    buffer_size = 2;
    packet_received_num = 2;
    read_buffer = record {
      data_num = 2;
      packets =
          record { packet_idx = 0; payload = x } ∷ record { packet_idx = 1; payload = x } ∷ [];
    };
    write_buffer = record { data_num = 0; packets = blank ∷ blank ∷ [] };
  }

  abbrev pub three_packets : Packet A → A → DoubleBuffer A
  three_packets blank x = record (two_packets blank x) {
    packet_received_num = 3;
    write_buffer = record {
      data_num = 1;
      packets = record { packet_idx = 2; payload = x } ∷ blank ∷ [];
    };
  }

  pub two-Stores : (blank : Packet A) (x : A) → Stores (two_packets blank x) (x ∷ x ∷ [])
  two-Stores blank x = record {
    size_pos = omega arith;
    size_small = omega arith;
    read_len = refl;
    write_len = refl;
    write_room = omega arith;
    read_full = inr refl;
    counted = refl;
    unwrapped = omega arith;
    held = omega arith;
    from_start = λ e. omega arith;
    kept = refl;
  }

  pub three-Stores : (blank : Packet A) (x : A) → Stores (three_packets blank x) (x ∷ x ∷ x ∷ [])
  three-Stores blank x = record {
    size_pos = omega arith;
    size_small = omega arith;
    read_len = refl;
    write_len = refl;
    write_room = omega arith;
    read_full = inr refl;
    counted = refl;
    unwrapped = omega arith;
    held = omega arith;
    from_start = λ e. omega arith;
    kept = refl;
  }

abbrev pub glove : DeviceDescriptor
glove = record {
  siu_uuid = 7;
  port_id = 1;
  user_device_type = 3;
  button_count = 0;
  sensor_unit_descriptors = [];
  supported_fusion_modes = 2 ∷ [];
  device_part_number = 90;
  secure_device_info = false;
}

abbrev pub pen : DeviceDescriptor
pen = record glove { port_id = 2 }

abbrev pub glove_id : DeviceId
glove_id = record { siu_uuid = 7; port_id = 1 }

abbrev pub pen_id : DeviceId
pen_id = record { siu_uuid = 7; port_id = 2 }

-- A message of the glove, with one pose.
abbrev pub glove_message : Proto.TrackingDeviceData
glove_message = record {
  siu_uuid = 7;
  port_id = 1;
  basestation_angle = 0;
  basestation_speed = 0;
  timestamp = 40;
  raw_sensor_data = [];
  battery_state = none;
  positions = record { x = 1; y = 2; z = 3 } ∷ [];
  quaternions = record { w = 1; x = 0; y = 0; z = 0 } ∷ [];
  indicator_values = 5 ∷ [];
  motion_indicators = [];
  bad_data_indicators = [];
  buttons = [];
  latency_timestamps = [];
}

abbrev pub glove_data : TrackingDeviceData
glove_data = record {
  siu_uuid = 7;
  port_id = 1;
  basestation_angle = 0;
  basestation_speed = 0;
  timestamp = 40;
  raw_sensor_data = [];
  poses =
      record {
        position = record { x = 1; y = 2; z = 3 };
        quaternion = record { w = 1; x = 0; y = 0; z = 0 };
        indicator_value = 5;
        motion_indicator = 0;
        bad_data_indicator = 0;
      }
      ∷ [];
  buttons = [];
  latency_timestamps = [];
  battery_state = record {
    state_of_charge = 4294967295;
    current = 4294967295;
    remaining_capacity = 4294967295;
  };
}

pub glove_converted : proto_to_tracking_device_data glove_message ≡ some glove_data
unfolding proto_to_tracking_device_data convert_poses pose_at convert_battery
glove_converted = refl

abbrev pub glove_two : DeviceDataStorage
glove_two = record { device = glove; buffers = two_packets Device.blank_packet glove_data }

abbrev pub glove_three : DeviceDataStorage
glove_three = record { device = glove; buffers = three_packets Device.blank_packet glove_data }

abbrev pub sweep : BaseStationData
sweep = BaseStation.blank_packet.payload

abbrev pub base_two : BaseStationDataStorage
base_two = record {
  buffers = two_packets BaseStation.blank_packet sweep;
  base_station_stream = some 4;
}

pub base_two-Holds : Refine.Holds base_two (sweep ∷ sweep ∷ [])
base_two-Holds = record {
  stores = two-Stores BaseStation.blank_packet sweep;
  old_slots = (inl refl, (inl refl, tt));
  blank_read = λ e. omega arith;
}

abbrev pub all_devices : DataRequest
all_devices = record {
  data_field_mask = 255;
  report_interval = 0;
  buffer_depth = 10;
  requested_fusion_mode = 2;
  include_raw_sensor_data = false;
  requested_devices = [];
}
