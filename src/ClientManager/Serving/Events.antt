-- ===== src/ClientManager/Serving/Events.antt =====
-- The invariant of ClientManager.Serving under the reports of devices and under new and closed
-- requests.
use ommo_sdk_external.Prelude.{
  ℕ, ◌≡◌, ◌≢◌, refl, ◌∙◌, sym, Bool, true, false, Option, none, some, List, [], ◌∷◌, arith,
  if◌then◌else◌, ◌==◌, is_some, lookup, insert, Each, Each-insert, Each-weaken, Each-lookup,
  Each-erased, Each-missing, Bool-cases, Option-cases, ◌⊎◌, inl, inr,
}
use mathlib.Core.Path.{subst}
use ommo_sdk_external.ClientManager.{
  remove_manager, close_request, request_data_frame, ClientManager, device_id_of, with_storage,
  update_device_data_stream, update_connected_devices, update_manager, update_each,
  device_event_processor, request_device_data, update_data_frame_stream, open_data_frame,
  collect_each,
}
use ommo_sdk_external.Convert.{proto_to_device_descriptor, proto_to_tracking_device_event}
use ommo_sdk_external.DataManager.{
  DataManager, new_data_manager, is_device_data_requested, hash_device, remove_device_storage,
  remove_device_storage_of,
}
use ommo_sdk_external.DataManager.Streams.{remove_data_frame_stream, set_data_frame_stream}
use ommo_sdk_external.Proto
use ommo_sdk_external.Types.{DeviceDescriptor, device_data, data_frame, DataRequest}
use ommo_sdk_external.ClientManager.Serving.{
  Served, ServesAll, IsServing, connect_lem, disconnect_lem, with_storage_lem, Each-append,
  request_device_data-IsServing, has_storage, has_stream,
}

-- What the report of a device leaves of the map of connected devices, and what holds of the device.
devices-connected :
    (devices : List (ℕ × DeviceDescriptor)) (event : Proto.TrackingDeviceEvent)
    → event.connected ≡ true
    → update_connected_devices devices event
      ≡ insert
          (hash_device (proto_to_device_descriptor event.device))
          (proto_to_device_descriptor event.device)
          devices
unfolding update_connected_devices proto_to_tracking_device_event
devices-connected devices event e = ground (arith, e)

devices-disconnected :
    (devices : List (ℕ × DeviceDescriptor)) (event : Proto.TrackingDeviceEvent)
    (P : ℕ → DeviceDescriptor → Type 0)
    → event.connected ≡ false
    → Each P devices
    → Each
        (λ j d. (j ≢ hash_device (proto_to_device_descriptor event.device)) × P j d)
        (update_connected_devices devices event)
unfolding update_connected_devices proto_to_tracking_device_event
devices-disconnected devices event P e h =
    let k = hash_device (proto_to_device_descriptor event.device) in
    elim (Bool-cases (is_some (lookup k devices))) [
      | inl there ↦ rw (there, e) (Each-erased P k devices h)
      | inr missing ↦
          let none_there : lookup k devices ≡ none = ground (arith, missing) in
          rw (missing, e) (Each-missing P k devices none_there h)
    ]

update_each_lem :
    (P Q : DataManager → Type 0) (managers : List (ℕ × DataManager))
    (devices : List (ℕ × DeviceDescriptor)) (device : DeviceDescriptor) (connected : Bool)
    (next : ℕ)
    → ((n : ℕ) (m : DataManager) → P m → Q (update_manager n m devices device connected).manager)
    → Each (λ i m. P m) managers
    → Each (λ i m. Q m) (update_each next managers devices device connected).0
unfolding update_each
update_each_lem P Q [] devices device connected next f h = tt
update_each_lem P Q ((i, m) ∷ managers) devices device connected next f h =
    (f next m h.0, update_each_lem P Q managers devices device connected _ f h.1)

type-cases : (m : DataManager) → (m.stream_type ≡ device_data) ⊎ (m.stream_type ≡ data_frame)
type-cases m = ground arith

collect-type :
    (m : DataManager) (devices : List (ℕ × DeviceDescriptor))
    → (collect_each m devices).0.stream_type ≡ m.stream_type
unfolding collect_each
collect-type m [] = refl
collect-type m ((k, device) ∷ devices) =
    elim (Bool-cases (is_device_data_requested m (device_id_of device))) [
      | inl wanted ↦
          rw wanted (collect-type (with_storage m device) devices ∙ (with_storage_lem m device 0).1)
      | inr unwanted ↦ rw unwanted (collect-type m devices)
    ]

frame-stays-frame :
    (next : ℕ) (m : DataManager) (devices : List (ℕ × DeviceDescriptor)) (device : DeviceDescriptor)
    (connected : Bool)
    → m.stream_type ≡ data_frame
    → (update_manager next m devices device connected).manager.stream_type ≡ data_frame
unfolding update_manager update_data_frame_stream open_data_frame remove_data_frame_stream
    set_data_frame_stream remove_device_storage_of remove_device_storage
frame-stays-frame next m devices device connected e =
    let kept = if connected then m else remove_device_storage_of m (device_id_of device) in
    let same = collect-type (remove_data_frame_stream kept) devices in ground (arith, e, same)

update_manager-device :
    (devices : List (ℕ × DeviceDescriptor)) (device : DeviceDescriptor) (connected : Bool)
    (next : ℕ) (m : DataManager)
    → m.stream_type ≡ device_data
    → update_manager next m devices device connected
      ≡ update_device_data_stream next m device connected
unfolding update_manager
update_manager-device devices device connected next m e = ground (arith, e)

-- What one round of the loop over the data managers does for a request of device data.
Each-both :
    (P Q : ℕ → DeviceDescriptor → Type 0) (m : List (ℕ × DeviceDescriptor))
    → Each P m
    → Each Q m
    → Each (λ k d. P k d × Q k d) m
Each-both P Q [] p q = tt
Each-both P Q ((k, d) ∷ m) p q = ((p.0, q.0), Each-both P Q m p.1 q.1)

serve_connected :
    (devices all : List (ℕ × DeviceDescriptor)) (device : DeviceDescriptor) (connected : Bool)
    (next : ℕ) (m : DataManager)
    → connected ≡ true
    → (m.stream_type ≡ device_data → ServesAll devices m)
    → let n = (update_manager next m all device connected).manager in
      n.stream_type ≡ device_data → ServesAll (insert (hash_device device) device devices) n
serve_connected devices all device false next m on h e = cc
serve_connected devices all device true next m on h e = elim (type-cases m) [
  | inl is_device ↦
      let ((same, same_type, others), served) = connect_lem next m device in
      let n = (update_device_data_stream next m device true).manager in
      rw (update_manager-device all device true next m is_device) (
        Each-insert (λ k d. Served n d) (hash_device device) device devices served
          (Each-weaken (λ k d. Served m d) (λ k d. Served n d) devices (λ k d. others d)
            (h is_device)))
  | inr is_frame ↦ cc (frame-stays-frame next m all device true is_frame)
]

serve_disconnected :
    (devices all : List (ℕ × DeviceDescriptor)) (device : DeviceDescriptor) (connected : Bool)
    (next : ℕ) (m : DataManager)
    → connected ≡ false
    → Each (λ k d. k ≢ hash_device device) devices
    → Each (λ k d. hash_device d ≡ k) devices
    → (m.stream_type ≡ device_data → ServesAll devices m)
    → let n = (update_manager next m all device connected).manager in
      n.stream_type ≡ device_data → ServesAll devices n
serve_disconnected devices all device true next m off ne keyed h e = cc
serve_disconnected devices all device false next m off ne keyed h e = elim (type-cases m) [
  | inl is_device ↦
      let n = (update_device_data_stream next m device false).manager in
      rw (update_manager-device all device false next m is_device) (
        Each-weaken (λ k d. (k ≢ hash_device device) × ((hash_device d ≡ k) × Served m d))
          (λ k d. Served n d) devices
          (λ k d p. (disconnect_lem next m device d).2 (λ same. p.0 (sym (p.1.0) ∙ same)) (p.1.1))
          (Each-both (λ k d. k ≢ hash_device device) (λ k d. (hash_device d ≡ k) × Served m d)
            devices ne
            (Each-both (λ k d. hash_device d ≡ k) (λ k d. Served m d) devices keyed (h is_device))))
  | inr is_frame ↦ cc (frame-stays-frame next m all device false is_frame)
]

-- Every report of a device keeps the invariant: a connected device is served by every request of
-- device data, and those that were served are still served.
pub device_event_processor-IsServing :
    (c : ClientManager) (device_event : Proto.TrackingDeviceEvent)
    → IsServing c
    → IsServing (device_event_processor c device_event).0
unfolding device_event_processor proto_to_tracking_device_event
device_event_processor-IsServing c device_event v =
    let device = proto_to_device_descriptor device_event.device in
    let old = c.connected_devices in
    let devices = update_connected_devices old device_event in
    let k = hash_device device in
    let Old : DataManager → Type 0 = λ m. m.stream_type ≡ device_data → ServesAll old m in
    let New : DataManager → Type 0 = λ m. m.stream_type ≡ device_data → ServesAll devices m in
    let round = update_each_lem Old New c.data_manager_list devices device device_event.connected in
    elim (Bool-cases device_event.connected) [
      | inl on ↦
          let same = devices-connected old device_event on in
          record {
            keyed = rw same (Each-insert (λ k d. hash_device d ≡ k) k device old refl v.keyed);
            served =
                round c.next_call
                  (λ n m h e.
                    subst
                      (λ ds.
                        ServesAll ds
                          (update_manager n m devices device device_event.connected).manager)
                      (sym same)
                      (serve_connected old devices device device_event.connected n m on h e))
                  v.served;
          }
      | inr off ↦
          let left = devices-disconnected old device_event in
          let keyed = left (λ k d. hash_device d ≡ k) off v.keyed in
          let keyed' =
            Each-weaken (λ j d. (j ≢ k) × (hash_device d ≡ j)) (λ j d. hash_device d ≡ j) devices
              (λ j d p. p.1) keyed in
          let ne =
            Each-weaken (λ j d. (j ≢ k) × (hash_device d ≡ j)) (λ j d. j ≢ k) devices (λ j d p. p.0)
              keyed in
          record {
            keyed = keyed';
            served =
                round c.next_call
                  (λ n m h e.
                    serve_disconnected devices devices device device_event.connected n m off ne
                      keyed'
                      (λ t.
                        Each-weaken (λ j d. (j ≢ k) × Served m d) (λ j d. Served m d) devices
                          (λ j d p. p.1) (left (λ j d. Served m d) off (h t)))
                      e)
                  v.served;
          }
    ]

remove_manager-Each :
    (P : ℕ → DataManager → Type 0) (number : ℕ) (ms : List (ℕ × DataManager))
    → Each P ms
    → Each P (remove_manager number ms)
unfolding remove_manager
remove_manager-Each P number [] h = tt
remove_manager-Each P number ((i, m) ∷ ms) h = elim (Bool-cases (i == number)) [
  | inl here ↦ rw here h.1
  | inr other ↦ rw other (h.0, remove_manager-Each P number ms h.1)
]

close_request-IsServing :
    (c : ClientManager) (number : ℕ) → IsServing c → IsServing (close_request c number).0
unfolding close_request
close_request-IsServing c number v = elim (Option-cases (lookup number c.data_manager_list)) [
  | inl missing ↦ rw (close_request, missing) v
  | inr (m, found) ↦
      rw (close_request, found)
        (record {
          keyed = v.keyed;
          served = remove_manager-Each _ number c.data_manager_list v.served;
        })
]

frame-type :
    (next : ℕ) (request : DataRequest) (devices : List (ℕ × DeviceDescriptor))
    → (open_data_frame next (new_data_manager request data_frame) devices).manager.stream_type
      ≡ data_frame
unfolding open_data_frame set_data_frame_stream new_data_manager
frame-type next request devices = collect-type (new_data_manager request data_frame) devices

request_data_frame-IsServing :
    (c : ClientManager) (request : DataRequest)
    → IsServing c
    → IsServing (request_data_frame c request).0
unfolding request_data_frame
request_data_frame-IsServing c request v = record {
  keyed = v.keyed;
  served =
      Each-append (λ i m. m.stream_type ≡ device_data → ServesAll c.connected_devices m)
        c.data_manager_list c.next_manager _ v.served
        (λ e. cc (frame-type c.next_call request c.connected_devices));
}

-- The states that a client manager reaches while its streams live: it begins with no device and no
-- request, requests are opened and closed, and devices are reported, in any order.
pub data Reachable : ClientManager → Type 0 where
  begun :
      (callback : Option ℕ)
      → Reachable (record {
        connected_devices = [];
        data_manager_list = [];
        next_manager = 0;
        next_call = 0;
        device_event_user_callback = callback;
      })
  requested :
      (c : ClientManager) (request : DataRequest)
      → Reachable c
      → Reachable (request_device_data c request).0
  framed :
      (c : ClientManager) (request : DataRequest)
      → Reachable c
      → Reachable (request_data_frame c request).0
  reported :
      (c : ClientManager) (device_event : Proto.TrackingDeviceEvent)
      → Reachable c
      → Reachable (device_event_processor c device_event).0
  closed : (c : ClientManager) (number : ℕ) → Reachable c → Reachable (close_request c number).0

-- Every reachable state has the invariant.
Reachable-IsServing : (c : ClientManager) → Reachable c → IsServing c
Reachable-IsServing _ (begun callback) = record { keyed = tt; served = tt }
Reachable-IsServing _ (requested c request r) =
    request_device_data-IsServing c request (Reachable-IsServing c r)
Reachable-IsServing _ (framed c request r) =
    request_data_frame-IsServing c request (Reachable-IsServing c r)
Reachable-IsServing _ (reported c device_event r) =
    device_event_processor-IsServing c device_event (Reachable-IsServing c r)
Reachable-IsServing _ (closed c number r) =
    close_request-IsServing c number (Reachable-IsServing c r)

-- In every state that a client manager reaches by opening and closing requests and by reports of
-- devices, in any order: for each open request of device data and each connected device that it asks
-- for, the data manager of the request has a storage and a stream.
pub Reachable-served :
    (c : ClientManager) (number k : ℕ) (m : DataManager) (device : DeviceDescriptor)
    → Reachable c
    → lookup number c.data_manager_list ≡ some m
    → m.stream_type ≡ device_data
    → lookup k c.connected_devices ≡ some device
    → is_device_data_requested m (device_id_of device) ≡ true
    → (has_storage (hash_device device) m ≡ true) × (has_stream (hash_device device) m ≡ true)
Reachable-served c number k m device r opened kind connected wanted =
    let v = Reachable-IsServing c r in
    let serves =
      Each-lookup (λ i n. n.stream_type ≡ device_data → ServesAll c.connected_devices n) number
        c.data_manager_list m v.served opened in
    Each-lookup (λ j d. Served m d) k c.connected_devices device (serves kind) connected wanted
