-- ===== src/Convert/Hardware/Laws.antt =====
-- Hardware states are converted without a fault, each in its place.
use ommo_sdk_external.Prelude.{ℕ, ◌≡◌, refl, Option, some, List, [], ◌∷◌}
use ommo_sdk_external.Types.Hardware.{
  CommonHardwareState, BasestationHardwareState, SiuHardwareState, WirelessReceiverHardwareState,
  HardwareStates,
}
use ommo_sdk_external.Proto.Hardware
use ommo_sdk_external.Convert.Strings.{copy_string_lem, read_string, until_nul}
use ommo_sdk_external.Convert.Hardware.{
  convert_each, proto_to_common_hardware_state, proto_to_basestation_hardware_state,
  proto_to_siu_hardware_state, proto_to_wireless_receiver_hardware_state, proto_to_hardware_states,
}

-- The struct shows what the message says; a string, up to its first NUL.
pub record ShowsCommon (m : Hardware.CommonHardwareState) (s : CommonHardwareState) : Type 0 where
  pub connected : s.connected ≡ m.connected
  pub serial_number : read_string s.serial_number ≡ some (until_nul m.serial_number)
  pub uuid : s.uuid ≡ m.uuid
  pub usb_port_name : read_string s.usb_port_name ≡ some (until_nul m.usb_port_name)
  pub hardware_status : s.hardware_status ≡ m.hardware_status

pub record ShowsBasestation (m : Hardware.BasestationHardwareState) (s : BasestationHardwareState)
    : Type 0 where
  pub common_state : ShowsCommon m.common_state s.common_state
  pub sync_channel : s.sync_channel ≡ m.sync_channel
  pub direct_comm_status : s.direct_comm_status ≡ m.direct_comm_status
  pub direct_comm_uuid : s.direct_comm_uuid ≡ m.direct_comm_uuid
  pub motor_running : s.motor_running ≡ m.motor_running

pub record ShowsSiu (m : Hardware.SiuHardwareState) (s : SiuHardwareState) : Type 0 where
  pub common_state : ShowsCommon m.common_state s.common_state
  pub wireless : s.wireless ≡ m.wireless
  pub sync_channel : s.sync_channel ≡ m.sync_channel
  pub data_channel : s.data_channel ≡ m.data_channel
  pub sensor_device_states : s.sensor_device_states ≡ m.sensor_device_states

pub record ShowsReceiver (m : Hardware.WirelessReceiverHardwareState)
    (s : WirelessReceiverHardwareState) : Type 0 where
  pub common_state : ShowsCommon m.common_state s.common_state
  pub data_channel : s.data_channel ≡ m.data_channel
  pub connected_sius : s.connected_sius ≡ m.connected_sius

-- Element by element, in the same order.
abbrev pub AllShow : {A B : Type 0} → (A → B → Type 0) → List A → List B → Type 0
AllShow R [] [] = Unit {0}
AllShow R [] (y ∷ ys) = ⊥
AllShow R (x ∷ xs) [] = ⊥
AllShow R (x ∷ xs) (y ∷ ys) = R x y × AllShow R xs ys

-- A converter that never faults and whose result shows the message.
abbrev pub Converts : {A B : Type 0} → (A → B → Type 0) → (A → Option B) → Type 0
Converts {A} {B} R f = (x : A) → (y : B) × (f x ≡ some y) × R x y

convert_each-Converts :
    {A B : Type 0} (R : A → B → Type 0) (f : A → Option B)
    → Converts R f
    → Converts (AllShow R) (convert_each f)
unfolding convert_each
convert_each-Converts R f c [] = ([], refl, tt)
convert_each-Converts R f c (x ∷ xs) =
    let (y, e, r) = c x in
    let (ys, es, rs) = convert_each-Converts R f c xs in (y ∷ ys, rw (e, es) refl, (r, rs))

module _ (fresh : ℕ → ℕ) where
  common-Converts : Converts ShowsCommon (proto_to_common_hardware_state fresh)
  unfolding proto_to_common_hardware_state
  common-Converts m =
      let (serial, e1, n1, t1) = copy_string_lem fresh m.serial_number in
      let (usb, e2, n2, t2) = copy_string_lem fresh m.usb_port_name in
      (
        record {
          connected = m.connected;
          serial_number = serial;
          uuid = m.uuid;
          usb_port_name = usb;
          hardware_status = m.hardware_status;
        },
        rw (e1, e2) refl,
        record {
          connected = refl;
          serial_number = t1;
          uuid = refl;
          usb_port_name = t2;
          hardware_status = refl;
        },
      )

  basestation-Converts : Converts ShowsBasestation (proto_to_basestation_hardware_state fresh)
  unfolding proto_to_basestation_hardware_state
  basestation-Converts m =
      let (c, e, r) = common-Converts m.common_state in
      (
        record {
          common_state = c;
          sync_channel = m.sync_channel;
          direct_comm_status = m.direct_comm_status;
          direct_comm_uuid = m.direct_comm_uuid;
          motor_running = m.motor_running;
        },
        rw e refl,
        record {
          common_state = r;
          sync_channel = refl;
          direct_comm_status = refl;
          direct_comm_uuid = refl;
          motor_running = refl;
        },
      )

  siu-Converts : Converts ShowsSiu (proto_to_siu_hardware_state fresh)
  unfolding proto_to_siu_hardware_state
  siu-Converts m =
      let (c, e, r) = common-Converts m.common_state in
      (
        record {
          common_state = c;
          wireless = m.wireless;
          sync_channel = m.sync_channel;
          data_channel = m.data_channel;
          sensor_device_states = m.sensor_device_states;
        },
        rw e refl,
        record {
          common_state = r;
          wireless = refl;
          sync_channel = refl;
          data_channel = refl;
          sensor_device_states = refl;
        },
      )

  receiver-Converts : Converts ShowsReceiver (proto_to_wireless_receiver_hardware_state fresh)
  unfolding proto_to_wireless_receiver_hardware_state
  receiver-Converts m =
      let (c, e, r) = common-Converts m.common_state in
      (
        record {
          common_state = c;
          data_channel = m.data_channel;
          connected_sius = m.connected_sius;
        },
        rw e refl,
        record { common_state = r; data_channel = refl; connected_sius = refl },
      )

-- A message of hardware states is converted without a fault, whatever its strings hold. The result
-- has as many base stations, SIUs and receivers, in the same order, each with the values of its
-- message; a string that is read from it is that of the message up to the first NUL.
pub proto_to_hardware_states_lem :
    (fresh : ℕ → ℕ) (m : Hardware.HardwareStates)
    → (s : HardwareStates) × (proto_to_hardware_states fresh m ≡ some s)
      × AllShow ShowsBasestation m.basestation_states s.basestation_states
      × AllShow ShowsSiu m.siu_states s.siu_states
      × AllShow ShowsReceiver m.wireless_receiver_states s.wireless_receiver_states
unfolding proto_to_hardware_states
proto_to_hardware_states_lem fresh m =
    let (bs, e1, r1) =
      convert_each-Converts ShowsBasestation (proto_to_basestation_hardware_state fresh)
        (basestation-Converts fresh) m.basestation_states in
    let (ss, e2, r2) =
      convert_each-Converts ShowsSiu (proto_to_siu_hardware_state fresh) (siu-Converts fresh)
        m.siu_states in
    let (rs, e3, r3) =
      convert_each-Converts ShowsReceiver (proto_to_wireless_receiver_hardware_state fresh)
        (receiver-Converts fresh) m.wireless_receiver_states in
    (
      record { basestation_states = bs; siu_states = ss; wireless_receiver_states = rs },
      rw (e1, e2, e3) refl,
      r1,
      r2,
      r3,
    )
