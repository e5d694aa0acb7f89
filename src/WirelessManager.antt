-- ===== src/WirelessManager.antt =====
-- `WirelessManager` (include/wireless_manager.h, src/wireless_manager.cpp, src/wireless_manager_impl.h)
-- and its wrapper (src/wireless_manager_wrapper.cpp). Each of its requests is a function of its own
-- in the source; here it is one constructor of `Command`, and the message that the function sends
-- is `request_of`. The call data object that `cdata` points to is part of the state.
pub mod Requests
use ommo_sdk_external.Prelude.{ℕ, Bool, true, false, Option, none, some, List, [], ◌∷◌, ◌++◌}
use ommo_sdk_external.CallData.{CallData, Action, cancel_call}
use ommo_sdk_external.CallData.Wireless.{send_wireless_management_request}
use ommo_sdk_external.Types.{WirelessManagementEvent, WirelessManagementRequest}

pub data Command : Type 0 where
  enable_pairing_mode disable_pairing_mode get_pairing_approved_list : Command
  approve_pairing deny_pairing unpair : ℕ → Command
  get_pairing_blocked_list : Command
  block_pairing unblock_pairing : ℕ → Command
  clear_blocked_list clear_approved_list reset_wireless_config : Command
  set_interval_length : ℕ → Command
  approve_interval_pairing sleep_device wake_device : ℕ → Command
  get_pairing_approved_interval_list : Command

-- A request as it leaves the setters of the message: what is not set is 0.
abbrev pub plain : ℕ → WirelessManagementRequest
plain request_type = record { request_type = request_type; siu_uuid = 0; interval_length = 0 }

abbrev pub for_siu : ℕ → ℕ → WirelessManagementRequest
for_siu request_type uuid = record {
  request_type = request_type;
  siu_uuid = uuid;
  interval_length = 0;
}

-- The numbers of the request types are those of `WirelessManagementRequestType`.
unfoldable pub request_of : Command → WirelessManagementRequest
request_of enable_pairing_mode = plain 1
request_of disable_pairing_mode = plain 2
request_of get_pairing_approved_list = plain 3
request_of (approve_pairing uuid) = for_siu 4 uuid
request_of (deny_pairing uuid) = for_siu 5 uuid
request_of (unpair uuid) = for_siu 6 uuid
request_of get_pairing_blocked_list = plain 7
request_of (block_pairing uuid) = for_siu 8 uuid
request_of (unblock_pairing uuid) = for_siu 9 uuid
request_of clear_blocked_list = plain 10
request_of clear_approved_list = plain 11
request_of reset_wireless_config = plain 12
request_of (set_interval_length n) = record { request_type = 13; siu_uuid = 0; interval_length = n }
request_of (approve_interval_pairing uuid) = for_siu 14 uuid
request_of (sleep_device uuid) = for_siu 15 uuid
request_of (wake_device uuid) = for_siu 16 uuid
request_of get_pairing_approved_interval_list = plain 17

-- `cdata` is `none` for the null pointer; a callback is known by a number.
pub record WirelessManager (R : Type 0) : Type 0 where
  pub cdata : Option (CallData R)
  pub wireless_management_event_user_callback : Option ℕ

module _ {R : Type 0} where
  -- One of the functions that send a request. `SendWirelessManagementRequest` reports whether it
  -- took the request; the functions discard that.
  unfoldable pub perform :
      WirelessManager R → Command → WirelessManager R × List (Action R WirelessManagementRequest)
  perform m command = elim m.cdata [
    | none ↦ (m, [])
    | some c ↦
        let (sent, actions, taken) = send_wireless_management_request c (request_of command) in
        (record m { cdata = some sent }, actions)
  ]

  unfoldable pub cancel_stream :
      WirelessManager R → WirelessManager R × List (Action R WirelessManagementRequest)
  cancel_stream m = elim m.cdata [
    | none ↦ (m, [])
    | some c ↦
        let (cancelled, actions) = cancel_call c in (record m { cdata = some cancelled }, actions)
  ]

  unfoldable pub is_stream_active : WirelessManager R → Bool
  is_stream_active m = elim m.cdata [ none ↦ false | some c ↦ c.listener_active ]

  unfoldable pub set_call_data : WirelessManager R → Option (CallData R) → WirelessManager R
  set_call_data m call_data = record m { cdata = call_data }

  unfoldable pub register_wireless_event_callback : WirelessManager R → Option ℕ → WirelessManager R
  register_wireless_event_callback m callback = record m {
    wireless_management_event_user_callback = callback;
  }

  unfoldable pub reset_wireless_event_callback : WirelessManager R → WirelessManager R
  reset_wireless_event_callback m = record m { wireless_management_event_user_callback = none }

  -- `WirelessManagerWrapper::ClearAssociation`, where the wrapper has a manager.
  unfoldable pub clear_wireless_association : WirelessManager R → WirelessManager R × Bool
  unfolding set_call_data
  clear_wireless_association m = (set_call_data m none, true)
