-- ===== src/ClientContext.antt =====
-- `ClientContext` (include/client_context.h, src/client_context_impl.h, src/client_context.cpp): the
-- requests of device data and of data frames, which the user knows by tags. The public functions
-- only call those of `impl`, which are modelled. A data manager is known by its number in
-- `ClientManager`; `none` is the answer where the model's client does not have it.
pub mod Delivery
pub mod Tags
use ommo_sdk_external.Prelude.{
  ℕ, ◌+◌, Option, none, some, List, [], ◌∷◌, u32, if◌then◌else◌, ◌==◌, lookup, insert, erase,
  change_first,
}
use ommo_sdk_external.Buffer.{DataResponse, no_packets}
use ommo_sdk_external.ClientManager.{ClientManager, Effect}
use ommo_sdk_external.ClientManager
use ommo_sdk_external.DataManager.{DataManager}
use ommo_sdk_external.DataManager
use ommo_sdk_external.Types.{DeviceId, DataRequest, TrackingDeviceData}

pub record ClientContext : Type 0 where
  pub client_manager : ClientManager
  pub data_managers : List (ℕ × ℕ)
  pub data_managers_tag_source : ℕ

-- The members' initial values.
unfoldable pub new_client_context : ClientManager → ClientContext
new_client_context client_manager = record {
  client_manager = client_manager;
  data_managers = [];
  data_managers_tag_source = 1;
}

-- What both requests do with the new data manager: the tag is the old value of the source.
unfoldable pub take_tag :
    ClientContext → ClientManager × List Effect × ℕ → ClientContext × List Effect × ℕ
take_tag c (client_manager, effects, manager) = (
  record {
    client_manager = client_manager;
    data_managers = insert c.data_managers_tag_source manager c.data_managers;
    data_managers_tag_source = u32 (c.data_managers_tag_source + 1);
  },
  effects,
  c.data_managers_tag_source,
)

unfoldable pub request_device_data : ClientContext → DataRequest → ClientContext × List Effect × ℕ
unfolding take_tag
request_device_data c request =
    take_tag c (ClientManager.request_device_data c.client_manager request)

unfoldable pub request_data_frame : ClientContext → DataRequest → ClientContext × List Effect × ℕ
unfolding take_tag
request_data_frame c request =
    take_tag c (ClientManager.request_data_frame c.client_manager request)

unfoldable pub close_request : ClientContext → ℕ → ClientContext × List Effect
close_request c request_tag = elim (lookup request_tag c.data_managers) [
  | none ↦ (c, [])
  | some manager ↦
      let (client_manager, effects) = ClientManager.close_request c.client_manager manager in
      (
        record c {
          client_manager = client_manager;
          data_managers = erase request_tag c.data_managers;
        },
        effects,
      )
]

-- The functions that read: `missing` is the answer for a tag without a request.
ask : {A : Type 0} → ClientContext → ℕ → A → (DataManager → Option A) → Option A
ask c request_tag missing query = elim (lookup request_tag c.data_managers) [
  | none ↦ some missing
  | some manager ↦ elim (lookup manager c.client_manager.data_manager_list) [
    | none ↦ none
    | some m ↦ query m
  ]
]

unfoldable pub get_available_device_list : ClientContext → ℕ → Option (List DeviceId)
unfolding ask
get_available_device_list c request_tag =
    ask c request_tag [] (λ m. some (DataManager.get_device_storage_list m))

unfoldable pub get_latest_data :
    ClientContext → ℕ → DeviceId → Option (DataResponse TrackingDeviceData)
unfolding ask
get_latest_data c request_tag device_id =
    ask c request_tag no_packets (λ m. DataManager.get_latest_data m device_id)

unfoldable pub get_latest_data_count :
    ClientContext → ℕ → DeviceId → ℕ → Option (DataResponse TrackingDeviceData)
unfolding ask
get_latest_data_count c request_tag device_id num_packets =
    ask c request_tag no_packets (λ m. DataManager.get_latest_data_count m device_id num_packets)

unfoldable pub get_data_since_index :
    ClientContext → ℕ → DeviceId → ℕ → Option (DataResponse TrackingDeviceData)
unfolding ask
get_data_since_index c request_tag device_id start_index =
    ask c request_tag no_packets (λ m. DataManager.get_data_since_index m device_id start_index)

-- The functions that change the data manager of a tag, if there is one.
change : ClientContext → ℕ → (DataManager → DataManager) → ClientContext
change c request_tag f = elim (lookup request_tag c.data_managers) [
  | none ↦ c
  | some manager ↦ record c {
    client_manager = record (c.client_manager) {
      data_manager_list = change_first manager f c.client_manager.data_manager_list;
    };
  }
]

unfoldable pub register_tracking_device_data_callback : ClientContext → ℕ → Option ℕ → ClientContext
unfolding change
register_tracking_device_data_callback c request_tag callback =
    change c request_tag (λ m. DataManager.register_tracking_device_data_callback m callback)

unfoldable pub reset_tracking_device_data_callback : ClientContext → ℕ → ClientContext
unfolding change
reset_tracking_device_data_callback c request_tag =
    change c request_tag DataManager.reset_tracking_device_data_callback

unfoldable pub register_data_frame_callback : ClientContext → ℕ → Option ℕ → ClientContext
unfolding change
register_data_frame_callback c request_tag callback =
    change c request_tag (λ m. DataManager.register_data_frame_callback m callback)

unfoldable pub reset_data_frame_callback : ClientContext → ℕ → ClientContext
unfolding change
reset_data_frame_callback c request_tag = change c request_tag DataManager.reset_data_frame_callback
