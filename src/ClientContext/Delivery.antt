-- ===== src/ClientContext/Delivery.antt =====
-- From a packet of a stream to the answers that the user gets by a tag: the stream of device data
-- that src/client_manager.cpp opens is bound to `UpdateDeviceData` of its data manager.
use ommo_sdk_external.Prelude.{
  change_first, lookup-change_first, lookup-change_first_other, ℕ, ◌+◌, ◌-◌, ◌<◌, ◌≤◌, ◌≡◌, ◌≢◌,
  refl, sym, ap, ◌∙◌, arith, true, Option, none, some, List, [], ◌∷◌, ◌++◌, ◌>>=◌, length,
  length-append, drop, lookup, Option-cases, inl, inr,
}
use ommo_sdk_external.Buffer.{success}
use ommo_sdk_external.ClientContext.{ClientContext, ask, get_latest_data_count}
use ommo_sdk_external.ClientContext.Tags.{IsValid, manager_of, named, unnamed}
use ommo_sdk_external.Convert.{proto_to_tracking_device_data}
use ommo_sdk_external.DataManager.{DataManager, UserCall, update_device_data}
use ommo_sdk_external.DataManager
use ommo_sdk_external.DataManager.Routing.{
  packet_hash, calls_of, update_device_data_lem, count_of_storage,
}
use ommo_sdk_external.Proto
use ommo_sdk_external.Storage.Device.{DeviceDataStorage, is_own}
use ommo_sdk_external.Storage.Device.Refine.{Holds}
use ommo_sdk_external.Storage.Device.History.{retains_latest}
use ommo_sdk_external.Buffer.Log.{number}
use ommo_sdk_external.Types.{DeviceId, TrackingDeviceData}

-- The handler that is bound to the data manager `manager` is called with a packet. The answer is
-- `none` where the client does not have that data manager.
unfoldable pub receive_device_data :
    ClientContext → ℕ → Proto.TrackingDeviceData → Option (ClientContext × List UserCall)
receive_device_data c manager packet = elim (lookup manager c.client_manager.data_manager_list) [
  | none ↦ none
  | some m ↦ update_device_data m packet >>= λ r. some (
    record c {
      client_manager = record (c.client_manager) {
        data_manager_list = change_first manager (λ old. r.0) c.client_manager.data_manager_list;
      };
    },
    r.1,
  )
]

abbrev pub device_of : Proto.TrackingDeviceData → DeviceId
device_of p = record { siu_uuid = p.siu_uuid; port_id = p.port_id }

-- What a tag's data manager answers, the tag answers.
count_by_tag :
    (c : ClientContext) (tag manager n : ℕ) (m : DataManager) (device_id : DeviceId)
    → lookup tag c.data_managers ≡ some manager
    → lookup manager c.client_manager.data_manager_list ≡ some m
    → get_latest_data_count c tag device_id n ≡ DataManager.get_latest_data_count m device_id n
unfolding get_latest_data_count
count_by_tag c tag manager n m device_id names here = rw (ask, names, here) refl

-- On valid tags, a packet that a stream hands to the data manager of a tag, of the device of a valid
-- storage there, faults nowhere, and the user's callback is called with it if there is one. Then
-- GetLatestData by this tag for `n` packets, of which so many have come and fit into the storage,
-- answers in full with the last `n` packets, the last of them the new one. Any other tag names the
-- data manager that it named, unchanged. This holds while fewer than 2^32 - 1 packets have come.
pub receive_device_data_lem :
    (c : ClientContext) (tag other manager n : ℕ) (m : DataManager) (p : Proto.TrackingDeviceData)
    (s : DeviceDataStorage) (h : List TrackingDeviceData) (d : TrackingDeviceData)
    → IsValid c
    → other ≢ tag
    → lookup tag c.data_managers ≡ some manager
    → lookup manager c.client_manager.data_manager_list ≡ some m
    → lookup (packet_hash p) m.device_data_map ≡ some s
    → is_own s.device p ≡ true
    → Holds s h
    → proto_to_tracking_device_data p ≡ some d
    → length h + 1 < 4294967296
    → 0 < n
    → n ≤ s.buffers.buffer_size
    → n ≤ length h + 1
    → (c' : ClientContext) × (receive_device_data c manager p ≡ some (c', calls_of m d))
      × (get_latest_data_count c' tag (device_of p) n
          ≡ some (record {
            state = success;
            packets = drop (length (h ++ (d ∷ [])) - n) (number 0 (h ++ (d ∷ [])));
            packet_count = n;
          }))
      × (manager_of c' other ≡ manager_of c other)
unfolding receive_device_data
receive_device_data_lem c tag other manager n m p s h d v ne names here found own holds converted
      room pos fits come =
    let (m', t, updated, stored, w, size) =
      update_device_data_lem m p s h d found own holds converted room in
    let l = c.client_manager.data_manager_list in
    let c' : ClientContext = record c {
      client_manager = record (c.client_manager) {
        data_manager_list = change_first manager (λ old. m') l;
      };
    } in
    let answer =
      retains_latest t (h ++ (d ∷ [])) n w pos (ground (arith, size))
        (ground (arith, length-append h (d ∷ []))) in
    (
      c',
      rw (receive_device_data, here, updated) refl,
      count_by_tag c' tag manager n m' (device_of p) names
            (lookup-change_first manager (λ old. m') m l here)
          ∙ count_of_storage m' p n t stored
          ∙ answer,
      elim (Option-cases (lookup other c.data_managers)) [
        | inl missing ↦ unnamed c' other missing ∙ sym (unnamed c other missing)
        | inr (k, at_k) ↦
            let apart : k ≢ manager =
              λ same. ne (v.distinct other tag manager (at_k ∙ ap some same) names) in
            named c' other k at_k
            ∙ lookup-change_first_other manager k (λ old. m') l apart
            ∙ sym (named c other k at_k)
      ],
    )
