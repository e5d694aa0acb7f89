-- ===== src/ClientManager/Serving.antt =====
-- The requests of device data against the connected devices (`UpdateDeviceDataStream` and
-- `RequestDeviceData` of src/client_manager.cpp): which devices have a storage and a stream.
pub mod Events
pub mod Once
use ommo_sdk_external.Prelude.{
  ℕ, suc, ◌+◌, ◌≡◌, ◌≢◌, refl, ap, ◌∙◌, sym, Bool, true, false, Option, none, some, List, [], ◌∷◌,
  ◌++◌, arith, if◌then◌else◌, ◌==◌, ==_refl, ==_iff, is_some, lookup, insert, erase, lookup-insert,
  lookup-erase, Each, Each-insert, Each-erase, Each-weaken, Each-erased, Each-missing, Bool-cases,
  Option-cases, ◌⊎◌, inl, inr,
}
use mathlib.Core.Path.{subst}
use ommo_sdk_external.ClientManager.{
  ClientManager, Updated, Effect, device_id_of, with_storage, with_stream, without_device,
  update_device_data_stream, connect_each, open_device_data_streams, update_connected_devices,
  update_manager, update_each, device_event_processor, request_device_data, settings_of,
  requested_device, open_device_data_stream, cancel, cancels, update_data_frame_stream,
  open_data_frame, collect_each,
}
use ommo_sdk_external.Convert.{proto_to_device_descriptor, proto_to_tracking_device_event}
use ommo_sdk_external.DataManager.{
  DataManager, new_data_manager, is_device_data_requested, hash_device, add_device_storage,
  remove_device_storage, remove_device_storage_of, is_storage_available, default_buffer_size,
}
use ommo_sdk_external.DataManager.Streams.{
  add_data_stream, remove_data_stream, data_stream_exists, cancel_data_stream,
  remove_data_frame_stream, set_data_frame_stream,
}
use ommo_sdk_external.Hash.{hash_device_id}
use ommo_sdk_external.Proto
use ommo_sdk_external.Storage.Device.{new_storage}
use ommo_sdk_external.Types.{DeviceDescriptor, DataStreamType, device_data, data_frame, DataRequest}

abbrev pub has_storage : ℕ → DataManager → Bool
has_storage k m = is_some (lookup k m.device_data_map)

abbrev pub has_stream : ℕ → DataManager → Bool
has_stream k m = is_some (lookup k m.device_data_streams)

-- If the data manager asks for the device, it has a storage and a stream for it.
abbrev pub Served : DataManager → DeviceDescriptor → Type 0
Served m device =
    is_device_data_requested m (device_id_of device) ≡ true
    → (has_storage (hash_device device) m ≡ true) × (has_stream (hash_device device) m ≡ true)

pub requested-request :
    (m n : DataManager) (device : DeviceDescriptor)
    → n.request ≡ m.request
    → is_device_data_requested n (device_id_of device)
      ≡ is_device_data_requested m (device_id_of device)
unfolding is_device_data_requested
requested-request m n device e = rw e refl

-- What connecting a device that is asked for does.
pub with_storage_lem :
    (m : DataManager) (device : DeviceDescriptor) (j : ℕ)
    → let n = with_storage m device in
      (n.request ≡ m.request)
      × (n.stream_type ≡ m.stream_type)
      × (has_storage (hash_device device) n ≡ true)
      × (has_storage j m ≡ true → has_storage j n ≡ true)
      × (n.device_data_streams ≡ m.device_data_streams)
unfolding is_storage_available add_device_storage
with_storage_lem m device j =
    let k = hash_device device in
    let s = new_storage device default_buffer_size in
    ground (arith, lookup-insert k k s m.device_data_map, lookup-insert k j s m.device_data_map)

pub with_stream_lem :
    (next : ℕ) (m : DataManager) (device : DeviceDescriptor) (j : ℕ)
    → let n = (with_stream next m device).manager in
      (n.request ≡ m.request)
      × (n.stream_type ≡ m.stream_type)
      × (has_stream (hash_device device) n ≡ true)
      × (has_stream j m ≡ true → has_stream j n ≡ true)
      × (n.device_data_map ≡ m.device_data_map)
unfolding with_stream data_stream_exists add_data_stream hash_device_id
with_stream_lem next m device j =
    let k = hash_device device in
    ground (
      arith,
      lookup-insert k k next m.device_data_streams,
      lookup-insert k j next m.device_data_streams,
    )

pub without_device_lem :
    (next : ℕ) (m : DataManager) (device : DeviceDescriptor) (j : ℕ)
    → let n = (without_device next m device).manager in
      (n.request ≡ m.request)
      × (n.stream_type ≡ m.stream_type)
      × (has_storage (hash_device device) n ≡ false)
      × (has_stream (hash_device device) n ≡ false)
      × (j ≢ hash_device device → has_storage j n ≡ has_storage j m)
      × (j ≢ hash_device device → has_stream j n ≡ has_stream j m)
unfolding without_device remove_data_stream remove_device_storage_of remove_device_storage
    hash_device_id
without_device_lem next m device j =
    let k = hash_device device in
    ground (
      arith,
      lookup-erase k k m.device_data_streams,
      lookup-erase k j m.device_data_streams,
      lookup-erase k k m.device_data_map,
      lookup-erase k j m.device_data_map,
    )

-- What the report of a connected device does for a data manager: the device is served, and so is
-- every other device that was.
abbrev pub KeepsServing : DataManager → DataManager → Type 0
KeepsServing m n =
    (n.request ≡ m.request)
    × (n.stream_type ≡ m.stream_type)
    × ((d : DeviceDescriptor) → Served m d → Served n d)

pub connect_lem :
    (next : ℕ) (m : DataManager) (device : DeviceDescriptor)
    → let n = (update_device_data_stream next m device true).manager in
      KeepsServing m n × Served n device
unfolding update_device_data_stream
connect_lem next m device = elim (Bool-cases (is_device_data_requested m (device_id_of device))) [
  | inl wanted ↦
      let a = with_storage m device in
      let b = (with_stream next a device).manager in
      let k = hash_device device in
      let same : b.request ≡ m.request =
        (with_stream_lem next a device k).0 ∙ (with_storage_lem m device k).0 in
      let same_type : b.stream_type ≡ m.stream_type =
        (with_stream_lem next a device k).1 ∙ (with_storage_lem m device k).1 in
      let served : Served b device =
        λ w. grind (arith, with_stream_lem next a device k, with_storage_lem m device k) in
      let others : (d : DeviceDescriptor) → Served m d → Served b d = λ d h w.
        let asked : is_device_data_requested m (device_id_of d) ≡ true =
          sym (requested-request m b d same) ∙ w in
        let held = h asked in
        grind (
          arith,
          with_stream_lem next a device (hash_device d),
          with_storage_lem m device (hash_device d),
        ) in
      rw wanted ((same, same_type, others), served)
  | inr unwanted ↦ rw unwanted ((refl, refl, λ d h. h), λ w. cc)
]

pub disconnect_lem :
    (next : ℕ) (m : DataManager) (device d : DeviceDescriptor)
    → let n = (update_device_data_stream next m device false).manager in
      (n.request ≡ m.request)
      × (n.stream_type ≡ m.stream_type)
      × (hash_device d ≢ hash_device device → Served m d → Served n d)
unfolding update_device_data_stream
disconnect_lem next m device d =
    elim (Bool-cases (is_device_data_requested m (device_id_of device))) [
      | inl wanted ↦
          let n = (without_device next m device).manager in
          let (same, same_type, no_storage, no_stream, storages, streams) =
            without_device_lem next m device (hash_device d) in
          let others : hash_device d ≢ hash_device device → Served m d → Served n d = λ ne h w.
            let asked : is_device_data_requested m (device_id_of d) ≡ true =
              sym (requested-request m n d same) ∙ w in
            let held = h asked in let a = storages ne in let b = streams ne in (cc, cc) in
          rw wanted (same, same_type, others)
      | inr unwanted ↦ rw unwanted (refl, refl, λ ne h. h)
    ]

-- All devices of a map are served.
abbrev pub ServesAll : List (ℕ × DeviceDescriptor) → DataManager → Type 0
ServesAll devices m = Each (λ k d. Served m d) devices

pub connect_each_lem :
    (devices : List (ℕ × DeviceDescriptor)) (next : ℕ) (m : DataManager)
    → let n = (connect_each next m devices).manager in KeepsServing m n × ServesAll devices n
unfolding connect_each
connect_each_lem [] next m = ((refl, refl, λ d h. h), tt)
connect_each_lem ((k, device) ∷ devices) next m =
    let first = update_device_data_stream next m device true in
    let ((same, same_type, others), served) = connect_lem next m device in
    let ((same', same_type', others'), all_served) =
      connect_each_lem devices first.next_call first.manager in
    (
      (same' ∙ same, same_type' ∙ same_type, λ d h. others' d (others d h)),
      (others' device served, all_served),
    )

-- The invariant of the client manager: the connected devices stand under their hashes, and every
-- request of device data serves all of them.
pub record IsServing (c : ClientManager) : Type 0 where
  pub keyed : Each (λ k d. hash_device d ≡ k) c.connected_devices
  pub served :
      Each
        (λ i m. m.stream_type ≡ device_data → ServesAll c.connected_devices m)
        c.data_manager_list

pub Each-append :
    (P : ℕ → DataManager → Type 0) (ms : List (ℕ × DataManager)) (i : ℕ) (m : DataManager)
    → Each P ms
    → P i m
    → Each P (ms ++ ((i, m) ∷ []))
Each-append P [] i m h p = (p, tt)
Each-append P ((j, n) ∷ ms) i m h p = (h.0, Each-append P ms i m h.1 p)

-- A request of device data serves all connected devices at once, and the invariant is kept.
pub request_device_data-IsServing :
    (c : ClientManager) (request : DataRequest)
    → IsServing c
    → IsServing (request_device_data c request).0
unfolding request_device_data open_device_data_streams new_data_manager
request_device_data-IsServing c request v =
    let m = new_data_manager request device_data in
    let (keeps, all_served) = connect_each_lem c.connected_devices c.next_call m in
    record {
      keyed = v.keyed;
      served =
          Each-append (λ i m. m.stream_type ≡ device_data → ServesAll c.connected_devices m)
            c.data_manager_list c.next_manager _ v.served (λ e. all_served);
    }
