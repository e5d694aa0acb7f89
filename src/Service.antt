-- ===== src/Service.antt =====
-- The calls of the service that have one answer (src/client_manager.cpp). The call through the stub
-- is a parameter, as are the file system's functions: `none` says that the call failed. Text is a
-- list of character codes.
use ommo_sdk_external.Prelude.{
  ℕ, Bool, true, false, not, ◌&&◌, Option, none, some, List, [], ◌≡◌, ◌⊎◌, inl, inr, refl,
  if◌then◌else◌, Bool-cases,
}
use ommo_sdk_external.Types.Groups.{
  TrackingDevices, DataLogState, error, rpc_fail, SelectReferenceDeviceRequest,
  SelectReferenceDeviceResponse,
}
use ommo_sdk_external.Types.Hardware.{HardwareStates}
use ommo_sdk_external.Proto.Groups
use ommo_sdk_external.Proto.Hardware
use ommo_sdk_external.Convert.Groups.{
  proto_to_tracking_devices, proto_to_data_log_state, proto_to_select_reference_device_response,
  select_reference_device_request_to_proto,
}
use ommo_sdk_external.Convert.Hardware.{proto_to_hardware_states}

-- The reply of a call, or the cleared reply of one that failed.
abbrev pub reply_or : {A : Type 0} → A → Option A → A
reply_or cleared none = cleared
reply_or cleared (some reply) = reply

unfoldable pub get_tracking_devices : Option Groups.TrackingDevices → TrackingDevices
unfolding proto_to_tracking_devices
get_tracking_devices reply = proto_to_tracking_devices (reply_or (record { devices = [] }) reply)

unfoldable pub get_hardware_states :
    (ℕ → ℕ) → Option Hardware.HardwareStates → Option HardwareStates
unfolding proto_to_hardware_states
get_hardware_states fresh reply = proto_to_hardware_states fresh (
    reply_or (record { basestation_states = []; siu_states = []; wireless_receiver_states = [] })
      reply)

unfoldable pub set_base_station_motor_running : (Bool → Option Bool) → Bool → Bool
set_base_station_motor_running call active = reply_or false (call active)

abbrev pub success_of : Option SelectReferenceDeviceResponse → Bool
success_of none = false
success_of (some reply) = reply.success

abbrev pub converted_response :
    Option SelectReferenceDeviceResponse → Option SelectReferenceDeviceResponse
converted_response none = none
converted_response (some reply) = some (proto_to_select_reference_device_response reply)

unfoldable pub select_reference_device :
    (SelectReferenceDeviceRequest → Option SelectReferenceDeviceResponse) → Bool → ℕ → ℕ → Bool
unfolding proto_to_select_reference_device_response select_reference_device_request_to_proto
select_reference_device call enabled siu_uuid port_num = success_of (
    converted_response (
      call (
        select_reference_device_request_to_proto
          (record { enabled = enabled; siu_uuid = siu_uuid; port_num = port_num }))))

pub record DataLoggingRequest : Type 0 where
  pub enable_logging : Bool
  pub directory : List ℕ
  pub file_name : List ℕ
  pub overwrite : Bool

-- The answer to a logging call, with the request that was sent.
unfoldable pub send_data_logging_request :
    (DataLoggingRequest → Option ℕ) → DataLoggingRequest → DataLogState × Option DataLoggingRequest
unfolding proto_to_data_log_state
send_data_logging_request call request = (state_of (call request), some request)
  where
    state_of : Option ℕ → DataLogState
    state_of none = rpc_fail
    state_of (some log_state) = proto_to_data_log_state log_state

module _ (join : List ℕ → List ℕ → List ℕ) (exists : List ℕ → Bool)
    (call : DataLoggingRequest → Option ℕ) where
  -- `std::filesystem::path(directory) / file_name` is `join`.
  unfoldable pub enable_data_logging :
      List ℕ → List ℕ → Bool → DataLogState × Option DataLoggingRequest
  unfolding send_data_logging_request
  enable_data_logging directory file_name overwrite =
      if not overwrite && exists (join directory file_name)
      then (error, none)
      else send_data_logging_request call (record {
        enable_logging = true;
        directory = directory;
        file_name = file_name;
        overwrite = overwrite;
      })

unfoldable pub disable_data_logging :
    (DataLoggingRequest → Option ℕ) → DataLogState × Option DataLoggingRequest
unfolding send_data_logging_request
disable_data_logging call =
    send_data_logging_request call
      (record { enable_logging = false; directory = []; file_name = []; overwrite = false })

-- A request to log that is sent names the given file, and permits to overwrite it exactly as the
-- user does; where the user does not, the file did not exist. A request is not sent only if the
-- file exists and the user does not permit to overwrite it, and the answer is then an error.
pub enable_data_logging_lem :
    (join : List ℕ → List ℕ → List ℕ) (exists : List ℕ → Bool)
    (call : DataLoggingRequest → Option ℕ) (directory file_name : List ℕ) (overwrite : Bool)
    → ((r : DataLoggingRequest) × ((enable_data_logging join exists call directory file_name
            overwrite).1
          ≡ some r)
        × (r.enable_logging ≡ true)
        × (r.directory ≡ directory)
        × (r.file_name ≡ file_name)
        × (r.overwrite ≡ overwrite)
        × ((overwrite ≡ true) ⊎ (exists (join directory file_name) ≡ false)))
      ⊎ ((enable_data_logging join exists call directory file_name overwrite ≡ (error, none))
          × (overwrite ≡ false)
          × (exists (join directory file_name) ≡ true))
unfolding enable_data_logging send_data_logging_request
enable_data_logging_lem join exists call directory file_name true =
    inl (_, refl, refl, refl, refl, refl, inl refl)
enable_data_logging_lem join exists call directory file_name false =
    elim (Bool-cases (exists (join directory file_name))) [
      | inl there ↦ inr (rw there refl, refl, there)
      | inr absent ↦ inl (_, rw absent refl, refl, refl, refl, refl, inr absent)
    ]
