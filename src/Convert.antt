-- ===== src/Convert.antt =====
-- The converters of src/protobuf_converters.cpp that carry device data and device events into the
-- structs of the API. Sub-messages with the same fields as their struct
-- (vectors, sensor descriptors, raw sensor data, battery states, timestamps) share one record, so
-- their converters, which copy field by field, are the identity. Reading a repeated field out of
-- range is a fault.
pub mod Strings
pub mod Hardware
pub mod Groups
use ommo_sdk_external.Prelude.{
  ℕ, zero, suc, ◌+◌, ◌≤◌, ◌≡◌, Option, none, some, List, [], ◌∷◌, arith, length, get_elem?, drop,
  take, map, ◌>>=◌, get_elem?_in, refl, sym, ap, drop-all,
}
use ommo_sdk_external.Proto
use ommo_sdk_external.Types.{
  DeviceDescriptor, TrackingDeviceEvent, TrackingDeviceData, PoseData, BatteryState,
}

abbrev pub or_zero : Option ℕ → ℕ
or_zero none = 0
or_zero (some v) = v

-- One round of the loop over the poses. The motion and bad-data indicators may be missing.
unfoldable pub pose_at : Proto.TrackingDeviceData → ℕ → Option PoseData
pose_at message i = do
  position ← get_elem? message.positions i
  quaternion ← get_elem? message.quaternions i
  indicator_value ← get_elem? message.indicator_values i
  some (record {
    position = position;
    quaternion = quaternion;
    indicator_value = indicator_value;
    motion_indicator = or_zero (get_elem? message.motion_indicators i);
    bad_data_indicator = or_zero (get_elem? message.bad_data_indicators i);
  })

-- The loop over the poses with `n` rounds to go.
unfoldable pub convert_poses : ℕ → Proto.TrackingDeviceData → ℕ → Option (List PoseData)
convert_poses zero message i = some []
convert_poses (suc n) message i = do
  pose ← pose_at message i
  poses ← convert_poses n message (suc i)
  some (pose ∷ poses)

-- The bit pattern of the `int32_t` -1.
abbrev minus_one : ℕ
minus_one = 4294967295

unfoldable pub convert_battery : Option BatteryState → BatteryState
convert_battery none = record {
  state_of_charge = minus_one;
  current = minus_one;
  remaining_capacity = minus_one;
}
convert_battery (some b) = b

unfoldable pub proto_to_tracking_device_data : Proto.TrackingDeviceData → Option TrackingDeviceData
proto_to_tracking_device_data message = do
  poses ← convert_poses (length message.positions) message 0
  some (record {
    siu_uuid = message.siu_uuid;
    port_id = message.port_id;
    basestation_angle = message.basestation_angle;
    basestation_speed = message.basestation_speed;
    timestamp = message.timestamp;
    raw_sensor_data = message.raw_sensor_data;
    poses = poses;
    buttons = message.buttons;
    latency_timestamps = message.latency_timestamps;
    battery_state = convert_battery message.battery_state;
  })

unfoldable pub proto_to_device_descriptor : Proto.DeviceDescriptor → DeviceDescriptor
proto_to_device_descriptor message = record {
  siu_uuid = message.siu_uuid;
  port_id = message.port_id;
  user_device_type = message.user_device_type;
  button_count = message.button_count;
  sensor_unit_descriptors = message.sensor_unit_descriptors;
  supported_fusion_modes = message.supported_fusion_modes;
  device_part_number = message.device_part_number;
  secure_device_info = message.secure_device_info;
}

unfoldable pub proto_to_tracking_device_event : Proto.TrackingDeviceEvent → TrackingDeviceEvent
unfolding proto_to_device_descriptor
proto_to_tracking_device_event message = record {
  connected = message.connected;
  device = proto_to_device_descriptor message.device;
}

unfoldable pub convert_all : List Proto.TrackingDeviceData → Option (List TrackingDeviceData)
convert_all [] = some []
convert_all (m ∷ ms) = do d ← proto_to_tracking_device_data m; ds ← convert_all ms; some (d ∷ ds)

unfoldable pub proto_to_data_frame : Proto.DataFrame → Option (List TrackingDeviceData)
unfolding convert_all
proto_to_data_frame frame = convert_all frame.device_data

-- The repeated fields that belong to a pose cover all the positions.
abbrev pub Complete : Proto.TrackingDeviceData → Type 0
Complete m =
    (length m.positions ≤ length m.quaternions) × (length m.positions ≤ length m.indicator_values)

convert_poses_lem :
    (n : ℕ) (m : Proto.TrackingDeviceData) (i : ℕ)
    → Complete m
    → i + n ≡ length m.positions
    → (poses : List PoseData) × (convert_poses n m i ≡ some poses)
      × (map (λ p. p.position) poses ≡ drop i m.positions)
      × (map (λ p. p.quaternion) poses ≡ take n (drop i m.quaternions))
      × (map (λ p. p.indicator_value) poses ≡ take n (drop i m.indicator_values))
unfolding convert_poses pose_at
convert_poses_lem zero m i c e = ([], refl, sym (drop-all i m.positions (omega arith)), refl, refl)
convert_poses_lem (suc n) m i c e =
    let (p, p_at, p_cut) = get_elem?_in m.positions i (omega arith) in
    let (q, q_at, q_cut) = get_elem?_in m.quaternions i (omega arith) in
    let (v, v_at, v_cut) = get_elem?_in m.indicator_values i (omega arith) in
    let (poses, found, ps, qs, vs) = convert_poses_lem n m (suc i) c (omega arith) in
    let pose : PoseData = record {
      position = p;
      quaternion = q;
      indicator_value = v;
      motion_indicator = or_zero (get_elem? m.motion_indicators i);
      bad_data_indicator = or_zero (get_elem? m.bad_data_indicators i);
    } in
    (
      pose ∷ poses,
      rw (p_at, q_at, v_at, found),
      rw p_cut (ap (λ r. p ∷ r) ps),
      rw q_cut (ap (λ r. q ∷ r) qs),
      rw v_cut (ap (λ r. v ∷ r) vs),
    )

-- A message whose quaternions and indicators cover its positions is converted, and the result has
-- one pose for each position, with the position, quaternion and indicator of the same place; the
-- identifiers are those of the message.
pub proto_to_tracking_device_data_lem :
    (m : Proto.TrackingDeviceData)
    → Complete m
    → (t : TrackingDeviceData) × (proto_to_tracking_device_data m ≡ some t)
      × (map (λ p. p.position) t.poses ≡ m.positions)
      × (map (λ p. p.quaternion) t.poses ≡ take (length m.positions) m.quaternions)
      × (map (λ p. p.indicator_value) t.poses ≡ take (length m.positions) m.indicator_values)
      × (t.siu_uuid ≡ m.siu_uuid)
      × (t.port_id ≡ m.port_id)
unfolding proto_to_tracking_device_data
proto_to_tracking_device_data_lem m c =
    let (poses, found, ps, qs, vs) = convert_poses_lem (length m.positions) m 0 c (omega arith) in
    let t : TrackingDeviceData = record {
      siu_uuid = m.siu_uuid;
      port_id = m.port_id;
      basestation_angle = m.basestation_angle;
      basestation_speed = m.basestation_speed;
      timestamp = m.timestamp;
      raw_sensor_data = m.raw_sensor_data;
      poses = poses;
      buttons = m.buttons;
      latency_timestamps = m.latency_timestamps;
      battery_state = convert_battery m.battery_state;
    } in
    (t, rw found, ps, qs, vs, refl, refl)
