-- ===== src/Tests/Clients.antt =====
-- The theorems about data managers, the client manager and the client context at concrete inputs.
use ommo_sdk_external.Prelude.{
  ◌+◌, ◌<◌, ◌≡◌, ◌≢◌, refl, true, false, none, some, [], ◌∷◌, arith, lookup,
}
use ommo_sdk_external.Buffer.{success, no_packets}
use ommo_sdk_external.ClientContext.{
  ClientContext, new_client_context, close_request, get_latest_data,
}
use ommo_sdk_external.ClientContext
use ommo_sdk_external.ClientContext.Delivery.{
  receive_device_data, device_of, receive_device_data_lem,
}
use ommo_sdk_external.ClientContext.Tags.{
  manager_of, IsValid, request_device_data_lem, request_device_data-IsValid, close_request_lem,
  new_client_context-IsValid,
}
use ommo_sdk_external.ClientManager.{
  ClientManager, device_id_of, update_device_data_stream, device_event_processor,
  request_device_data, update_manager, open_device_data_streams, update_connected_devices,
}
use ommo_sdk_external.Convert.{proto_to_tracking_device_event, proto_to_device_descriptor}
use ommo_sdk_external.ClientManager.Serving.{has_storage, has_stream}
use ommo_sdk_external.ClientManager.Serving.Events.{begun, requested, reported, Reachable-served}
use ommo_sdk_external.DataManager.{
  DataManager, device_data_call, new_data_manager, hash_device, add_device_storage,
  remove_device_storage, update_device_data, update_data_frame, is_device_data_requested,
  is_storage_available, push_each, push_to,
}
use ommo_sdk_external.DataManager.Routing.{
  packet_hash, IsKeyed, calls_of, storages-IsKeyed, packet_isolated, update_device_data_lem,
}
use ommo_sdk_external.DataManager.Streams.{
  add_data_stream, data_stream_exists, clear_association, is_stream,
}
use ommo_sdk_external.DataManager.Streams.Laws.{remove_stream_hangs}
use ommo_sdk_external.Hash.{hash, hash_device_id}
use ommo_sdk_external.Proto
use ommo_sdk_external.Storage.Device.{DeviceDataStorage, push_data}
use ommo_sdk_external.Storage.Device
use ommo_sdk_external.Storage.Device.Refine.{Holds}
use ommo_sdk_external.Types.{DeviceDescriptor, device_data}
use ommo_sdk_external.Tests.Data.{
  two-Stores, glove, pen, glove_id, pen_id, glove_message, glove_data, glove_converted, glove_two,
  all_devices,
}

-- A manager with a storage for the glove, under its hash, and a callback.
abbrev glove_manager : DataManager
glove_manager = record (new_data_manager all_devices device_data) {
  device_data_map = (hash_device glove, glove_two) ∷ [];
  device_data_user_callback = some 6;
}

update_device_data_lem_example :
    (m' : DataManager) × (t : DeviceDataStorage) × (update_device_data glove_manager glove_message
      ≡ some (m', calls_of glove_manager glove_data))
    × (lookup (packet_hash glove_message) m'.device_data_map ≡ some t)
    × Holds t (glove_data ∷ glove_data ∷ glove_data ∷ [])
    × (t.buffers.buffer_size ≡ glove_two.buffers.buffer_size)
unfolding hash
update_device_data_lem_example =
    update_device_data_lem glove_manager glove_message glove_two (glove_data ∷ glove_data ∷ [])
      glove_data refl refl (two-Stores Device.blank_packet glove_data) glove_converted (omega arith)

-- A device whose hash is that of the glove.
abbrev ghost : DeviceDescriptor
ghost = record glove { siu_uuid = 0; port_id = 1793 }

abbrev ghost_two : DeviceDataStorage
ghost_two = record glove_two { device = ghost }

abbrev ghost_manager : DataManager
ghost_manager = record glove_manager { device_data_map = (hash_device ghost, ghost_two) ∷ [] }

ghost_updated :
    update_device_data ghost_manager glove_message
    ≡ some (ghost_manager, device_data_call 6 glove_data ∷ [])
unfolding update_device_data push_to push_data hash
ghost_updated = rw glove_converted refl

packet_isolated_example : lookup (hash_device ghost) ghost_manager.device_data_map ≡ some ghost_two
unfolding hash
packet_isolated_example =
    packet_isolated ghost_manager ghost_manager glove_message (device_data_call 6 glove_data ∷ [])
      (hash_device ghost) ghost_two ghost_updated refl refl

abbrev glove_frame : Proto.DataFrame
glove_frame = record { device_data = glove_message ∷ [] }

frame_updated : update_data_frame ghost_manager glove_frame ≡ some (ghost_manager, [])
unfolding update_data_frame push_each push_to push_data hash new_data_manager
frame_updated = refl

storages-IsKeyed_example :
    IsKeyed (new_data_manager all_devices device_data)
    × IsKeyed (add_device_storage ghost_manager pen 500)
    × IsKeyed (remove_device_storage ghost_manager 7)
    × IsKeyed ghost_manager
    × IsKeyed ghost_manager
storages-IsKeyed_example =
    storages-IsKeyed ghost_manager ghost_manager ghost_manager all_devices device_data pen 500 7
      glove_message glove_frame (device_data_call 6 glove_data ∷ []) [] (refl, tt) ghost_updated
      frame_updated

-- A manager with two device streams.
abbrev streaming : DataManager
streaming = record (new_data_manager all_devices device_data) {
  device_data_streams = (hash_device_id glove_id, 3) ∷ (hash_device_id pen_id, 4) ∷ [];
}

ids_differ : hash_device_id pen_id ≢ hash_device_id glove_id
unfolding hash_device_id hash
ids_differ e = omega (arith, e)

none_yet : data_stream_exists glove_manager glove_id ≡ false
unfolding data_stream_exists new_data_manager
none_yet = refl

no_frame : is_stream streaming.dataframe_stream 4 ≡ false
unfolding new_data_manager
no_frame = refl

remove_stream_hangs_example : clear_association 1000 streaming 4 ≡ none
remove_stream_hangs_example =
    remove_stream_hangs 1000 (hash_device_id glove_id) 3 4 ((hash_device_id pen_id, 4) ∷ [])
      streaming refl (λ e. omega (arith, e)) no_frame

asked_for :
    is_device_data_requested (new_data_manager all_devices device_data) (device_id_of glove) ≡ true
unfolding is_device_data_requested new_data_manager
asked_for = refl

no_stream : has_stream (hash_device glove) (new_data_manager all_devices device_data) ≡ false
unfolding new_data_manager
no_stream = refl

streaming_asks : is_device_data_requested streaming (device_id_of glove) ≡ true
unfolding is_device_data_requested new_data_manager
streaming_asks = refl

-- A client manager that has had no report and no request.
abbrev new_client : ClientManager
new_client = record {
  connected_devices = [];
  data_manager_list = [];
  next_manager = 0;
  next_call = 0;
  device_event_user_callback = none;
}

abbrev glove_described : Proto.DeviceDescriptor
glove_described = record {
  siu_uuid = 7;
  port_id = 1;
  user_device_type = 3;
  button_count = 0;
  sensor_unit_descriptors = [];
  supported_fusion_modes = 2 ∷ [];
  device_part_number = 90;
  secure_device_info = false;
}

abbrev plugged : Proto.TrackingDeviceEvent
plugged = record { connected = true; device = glove_described }

abbrev after_report : ClientManager
after_report = (device_event_processor (request_device_data new_client all_devices).0 plugged).0

abbrev served_manager : DataManager
served_manager =
    (update_device_data_stream 0 (new_data_manager all_devices device_data) glove true).manager

report_opens : lookup 0 after_report.data_manager_list ≡ some served_manager
unfolding device_event_processor request_device_data open_device_data_streams update_manager
    proto_to_tracking_device_event proto_to_device_descriptor new_data_manager
report_opens = refl

report_connects : lookup (hash_device glove) after_report.connected_devices ≡ some glove
unfolding device_event_processor request_device_data update_connected_devices
    proto_to_tracking_device_event proto_to_device_descriptor hash
report_connects = refl

report_kind : served_manager.stream_type ≡ device_data
unfolding update_device_data_stream new_data_manager is_device_data_requested data_stream_exists
    add_data_stream is_storage_available add_device_storage hash hash_device_id
report_kind = refl

report_asks : is_device_data_requested served_manager (device_id_of glove) ≡ true
unfolding update_device_data_stream new_data_manager is_device_data_requested data_stream_exists
    add_data_stream is_storage_available add_device_storage hash hash_device_id
report_asks = refl

Reachable-served_example :
    (has_storage (hash_device glove) served_manager ≡ true)
    × (has_stream (hash_device glove) served_manager ≡ true)
Reachable-served_example =
    Reachable-served after_report 0 (hash_device glove) served_manager glove
      (reported (request_device_data new_client all_devices).0 plugged
        (requested new_client all_devices (begun none)))
      report_opens report_kind report_connects report_asks

abbrev context : ClientContext
context = new_client_context new_client

context-IsValid : IsValid context
context-IsValid = new_client_context-IsValid new_client refl

first_tag : 5 ≢ context.data_managers_tag_source
unfolding new_client_context
first_tag e = omega (arith, e)

request_device_data_lem_example :
    let (c', out, tag) = ClientContext.request_device_data context all_devices in
    (m : DataManager) × (manager_of context tag ≡ none)
    × (manager_of c' tag ≡ some m)
    × (m.request ≡ all_devices)
    × (m.stream_type ≡ device_data)
    × (manager_of c' 5 ≡ manager_of context 5)
request_device_data_lem_example =
    request_device_data_lem context all_devices 5 context-IsValid first_tag

fits : context.data_managers_tag_source + 1 < 4294967296
unfolding new_client_context
fits = omega arith

abbrev opened_context : ClientContext
opened_context = (ClientContext.request_device_data context all_devices).0

close_request_lem_example :
    let c' = (close_request opened_context 1).0 in
    (get_latest_data c' 1 glove_id ≡ some no_packets)
    × (manager_of c' 1 ≡ none)
    × (manager_of c' 2 ≡ manager_of opened_context 2)
close_request_lem_example =
    close_request_lem opened_context 1 2 glove_id
      (request_device_data-IsValid context all_devices context-IsValid fits) (λ e. omega (arith, e))

-- Tag 1 names a data manager that holds two packets of the glove.
abbrev glove_context : ClientContext
glove_context = record context {
  client_manager = record new_client {
    data_manager_list = (0, glove_manager) ∷ [];
    next_manager = 1;
  };
  data_managers = (1, 0) ∷ [];
  data_managers_tag_source = 2;
}

glove_context-IsValid : IsValid glove_context
unfolding new_client_context
glove_context-IsValid = record {
  old_tags = (omega arith, tt);
  old_managers = (omega arith, tt);
  old_numbers = (omega arith, tt);
  distinct = λ t u manager at_t at_u. ground (arith, at_t, at_u);
}

receive_device_data_lem_example :
    (c' : ClientContext) × (receive_device_data glove_context 0 glove_message
      ≡ some (c', calls_of glove_manager glove_data))
    × (ClientContext.get_latest_data_count c' 1 (device_of glove_message) 1
        ≡ some (record {
          state = success;
          packets = record { packet_idx = 2; payload = glove_data } ∷ [];
          packet_count = 1;
        }))
    × (manager_of c' 2 ≡ manager_of glove_context 2)
unfolding hash
receive_device_data_lem_example =
    receive_device_data_lem glove_context 1 2 0 1 glove_manager glove_message glove_two
      (glove_data ∷ glove_data ∷ []) glove_data glove_context-IsValid (λ e. omega (arith, e)) refl
      refl refl refl (two-Stores Device.blank_packet glove_data) glove_converted (omega arith)
      (omega arith) (omega arith) (omega arith)
