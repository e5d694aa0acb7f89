-- ===== src/DataManager/Routing.antt =====
-- Where `DataManager` (src/data_manager.cpp) puts received data: the storage under the hash of the
-- packet, and the other storages.
use ommo_sdk_external.Prelude.{
  ℕ, ◌+◌, ◌<◌, ◌≡◌, refl, sym, ap, ◌∙◌, ◌⊎◌, inl, inr, Bool, true, false, Option, none, some, List,
  [], ◌∷◌, ◌++◌, arith, length, ◌==◌, ==_iff, ==_refl, ◌>>=◌, is_some, lookup, insert,
  lookup-insert, Each, Each-insert, Each-erase, Each-lookup, Option-cases, Bool-cases, >>=-some,
}
use ommo_sdk_external.Convert.{proto_to_tracking_device_data, proto_to_data_frame}
use ommo_sdk_external.DataManager.{
  DataManager, UserCall, device_data_call, new_data_manager, hash_device, add_device_storage,
  remove_device_storage, push_to, push_each, update_device_data, update_data_frame, ask,
  get_latest_data_count,
}
use ommo_sdk_external.Hash.{hash, hash_device_id}
use ommo_sdk_external.Proto
use ommo_sdk_external.Storage.Device.{DeviceDataStorage, is_own, push_data, new_storage}
use ommo_sdk_external.Storage.Device
use ommo_sdk_external.Storage.Device.Refine.{Holds, push_data_lem}
use ommo_sdk_external.Types.{DeviceDescriptor, TrackingDeviceData, DataRequest, DataStreamType}

abbrev pub packet_hash : Proto.TrackingDeviceData → ℕ
packet_hash p = hash p.siu_uuid p.port_id

-- A push leaves the device of a storage, and leaves a storage of another device as it is.
device-push :
    (s t : DeviceDataStorage) (p : Proto.TrackingDeviceData) (b : Bool)
    → push_data s p ≡ some (t, b)
    → t.device ≡ s.device
unfolding push_data
device-push s t p b e = ground (arith, e)

push_data-foreign :
    (s : DeviceDataStorage) (p : Proto.TrackingDeviceData)
    → is_own s.device p ≡ false
    → push_data s p ≡ some (s, false)
unfolding push_data
push_data-foreign s p e = rw (e, push_data)

-- A storage stands under the hash of its device.
abbrev pub HasKey : ℕ → DeviceDataStorage → Type 0
HasKey k s = hash_device s.device ≡ k

abbrev pub IsKeyed : DataManager → Type 0
IsKeyed m = Each HasKey m.device_data_map

-- What a push through the map does: nothing if no storage has the packet's hash; otherwise that
-- storage is replaced by the result of its push.
push_to-cases :
    (m m' : List (ℕ × DeviceDataStorage)) (p : Proto.TrackingDeviceData)
    → push_to m p ≡ some m'
    → ((lookup (packet_hash p) m ≡ none) × (m' ≡ m))
      ⊎ ((s : DeviceDataStorage) × (t : DeviceDataStorage) × (b : Bool) × (lookup (packet_hash p) m
            ≡ some s)
          × (push_data s p ≡ some (t, b))
          × (m' ≡ insert (packet_hash p) t m))
unfolding push_to
push_to-cases m m' p e = elim (Option-cases (lookup (packet_hash p) m)) [
  | inl missing ↦ inl (missing, ground (arith, e, missing))
  | inr (s, found) ↦
      let after : (push_data s p >>= λ r. some (insert (packet_hash p) r.0 m)) ≡ some m' =
        rw (found, push_to) at e in
      elim (Option-cases (push_data s p)) [
        | inl faulted ↦ cc (rw faulted at after)
        | inr ((t, b), pushed) ↦ inr (s, t, b, found, pushed, cc (rw pushed at after))
      ]
]

push_to-keyed :
    (m m' : List (ℕ × DeviceDataStorage)) (p : Proto.TrackingDeviceData)
    → push_to m p ≡ some m'
    → Each HasKey m
    → Each HasKey m'
push_to-keyed m m' p e h = elim (push_to-cases m m' p e) [
  | inl (missing, same) ↦ rw same h
  | inr (s, t, b, found, pushed, same) ↦
      let key : HasKey (packet_hash p) t =
        rw (device-push s t p b pushed) (Each-lookup HasKey (packet_hash p) m s h found) in
      rw same (Each-insert HasKey (packet_hash p) t m key h)
]

-- What one push does to a storage of another device.
push_to-foreign :
    (m m' : List (ℕ × DeviceDataStorage)) (p : Proto.TrackingDeviceData) (j : ℕ)
    (s : DeviceDataStorage)
    → push_to m p ≡ some m'
    → lookup j m ≡ some s
    → is_own s.device p ≡ false
    → lookup j m' ≡ some s
push_to-foreign m m' p j s e found foreign = elim (push_to-cases m m' p e) [
  | inl (missing, same) ↦ rw same found
  | inr (r, t, b, at_hash, pushed, same) ↦
      rw (same, lookup-insert (packet_hash p) j t m)
        (elim (Bool-cases (packet_hash p == j)) [
          | inl hit ↦
              let key : packet_hash p ≡ j = (==_iff (packet_hash p) j).0 hit in
              let is_s : r ≡ s = cc (sym at_hash ∙ ap (λ k. lookup k m) key ∙ found) in
              let kept : push_data r p ≡ some (s, false) =
                rw is_s (push_data-foreign s p foreign) in
              let is_t : t ≡ s = cc (sym pushed ∙ kept) in rw (hit, is_t)
          | inr miss ↦ rw miss found
        ])
]

push_each-keyed :
    (ps : List Proto.TrackingDeviceData) (m m' : List (ℕ × DeviceDataStorage))
    → push_each m ps ≡ some m'
    → Each HasKey m
    → Each HasKey m'
unfolding push_each
push_each-keyed [] m m' e h = let same : m ≡ m' = cc in rw (sym same) h
push_each-keyed (p ∷ ps) m m' e h =
    let (r, first, rest) = >>=-some (push_to m p) _ e in
    push_each-keyed ps r m' rest (push_to-keyed m r p first h)

-- None of the packets is from the device.
abbrev pub NoneOwn : DeviceDescriptor → List Proto.TrackingDeviceData → Type 0
NoneOwn device [] = Unit {0}
NoneOwn device (p ∷ ps) = (is_own device p ≡ false) × NoneOwn device ps

push_each-foreign :
    (ps : List Proto.TrackingDeviceData) (m m' : List (ℕ × DeviceDataStorage)) (j : ℕ)
    (s : DeviceDataStorage)
    → push_each m ps ≡ some m'
    → lookup j m ≡ some s
    → NoneOwn s.device ps
    → lookup j m' ≡ some s
unfolding push_each
push_each-foreign [] m m' j s e found foreign = let same : m ≡ m' = cc in rw (sym same) found
push_each-foreign (p ∷ ps) m m' j s e found foreign =
    let (r, first, rest) = >>=-some (push_to m p) _ e in
    push_each-foreign ps r m' j s rest (push_to-foreign m r p j s first found foreign.0) foreign.1

map-of : Option (DataManager × List UserCall) → Option (List (ℕ × DeviceDataStorage))
map-of none = none
map-of (some x) = some x.0.device_data_map

update-pushes :
    (m m' : DataManager) (p : Proto.TrackingDeviceData) (calls : List UserCall)
    → update_device_data m p ≡ some (m', calls)
    → push_to m.device_data_map p ≡ some m'.device_data_map
unfolding update_device_data map-of
update-pushes m m' p calls e =
    let (r, pushed, rest) = >>=-some (push_to m.device_data_map p) _ e in
    elim (Option-cases m.device_data_user_callback) [
      | inl unset ↦ let after = rw unset at rest in pushed ∙ ap map-of after
      | inr (c, set) ↦
          let (d, converted, after) =
            >>=-some (proto_to_tracking_device_data p) _ (rw set at rest) in
          pushed ∙ ap map-of after
    ]

frame-pushes :
    (m m' : DataManager) (f : Proto.DataFrame) (calls : List UserCall)
    → update_data_frame m f ≡ some (m', calls)
    → push_each m.device_data_map f.device_data ≡ some m'.device_data_map
unfolding update_data_frame map-of
frame-pushes m m' f calls e =
    let (r, pushed, rest) = >>=-some (push_each m.device_data_map f.device_data) _ e in
    elim (Option-cases m.data_frame_user_callback) [
      | inl unset ↦ let after = rw unset at rest in pushed ∙ ap map-of after
      | inr (c, set) ↦
          let (d, converted, after) = >>=-some (proto_to_data_frame f) _ (rw set at rest) in
          pushed ∙ ap map-of after
    ]

-- The empty map has each storage under the hash of its own device. If a map has this, then so it has
-- after a storage is added or removed, and after a packet or a data frame that does not fault.
pub storages-IsKeyed :
    (m after_packet after_frame : DataManager) (request : DataRequest) (kind : DataStreamType)
    (device : DeviceDescriptor) (size h : ℕ) (p : Proto.TrackingDeviceData) (f : Proto.DataFrame)
    (packet_calls frame_calls : List UserCall)
    → IsKeyed m
    → update_device_data m p ≡ some (after_packet, packet_calls)
    → update_data_frame m f ≡ some (after_frame, frame_calls)
    → IsKeyed (new_data_manager request kind)
      × IsKeyed (add_device_storage m device size)
      × IsKeyed (remove_device_storage m h)
      × IsKeyed after_packet
      × IsKeyed after_frame
unfolding new_data_manager add_device_storage remove_device_storage new_storage
storages-IsKeyed m m1 m2 request kind device size h p f calls1 calls2 keyed e1 e2 = (
  tt,
  elim (Bool-cases (is_some (lookup (hash_device device) m.device_data_map))) [
    | inl there ↦ rw there keyed
    | inr missing ↦ rw missing (
        Each-insert HasKey (hash_device device) (new_storage device size) m.device_data_map refl
          keyed)
  ],
  Each-erase HasKey h m.device_data_map keyed,
  push_to-keyed m.device_data_map m1.device_data_map p (update-pushes m m1 p calls1 e1) keyed,
  push_each-keyed f.device_data m.device_data_map m2.device_data_map (frame-pushes m m2 f calls2 e2)
      keyed,
)

-- If UpdateDeviceData does not fault, a storage in the map whose device is not that of the packet
-- is unchanged, also when it stands under the packet's hash.
pub packet_isolated :
    (m m' : DataManager) (p : Proto.TrackingDeviceData) (calls : List UserCall) (j : ℕ)
    (s : DeviceDataStorage)
    → update_device_data m p ≡ some (m', calls)
    → lookup j m.device_data_map ≡ some s
    → is_own s.device p ≡ false
    → lookup j m'.device_data_map ≡ some s
packet_isolated m m' p calls j s e found foreign =
    push_to-foreign m.device_data_map m'.device_data_map p j s (update-pushes m m' p calls e) found
      foreign

-- If UpdateDataFrame does not fault, a storage in the map of whose device the data frame has no
-- packet is unchanged.
pub frame_isolated :
    (m m' : DataManager) (f : Proto.DataFrame) (calls : List UserCall) (j : ℕ)
    (s : DeviceDataStorage)
    → update_data_frame m f ≡ some (m', calls)
    → lookup j m.device_data_map ≡ some s
    → NoneOwn s.device f.device_data
    → lookup j m'.device_data_map ≡ some s
frame_isolated m m' f calls j s e found foreign =
    push_each-foreign f.device_data m.device_data_map m'.device_data_map j s
      (frame-pushes m m' f calls e) found foreign

-- The calls of user callbacks for a converted packet.
abbrev pub calls_of : DataManager → TrackingDeviceData → List UserCall
calls_of m d = elim m.device_data_user_callback [
  | none ↦ []
  | some callback ↦ device_data_call callback d ∷ []
]

called :
    (callback : Option ℕ) (o : Option TrackingDeviceData) (d : TrackingDeviceData) (m : DataManager)
    → o ≡ some d
    → ◌≡◌ {A = Option (DataManager × List UserCall)}
        (elim callback [
          | none ↦ some (m, [])
          | some c ↦ o >>= λ x. some (m, device_data_call c x ∷ [])
        ])
        (some (m, elim callback [ none ↦ [] | some c ↦ device_data_call c d ∷ [] ]))
called none o d m e = refl
called (some c) o d m e = rw e refl

-- A packet that can be converted, from the device of the valid storage under its hash, is appended
-- to what that storage has been given, and the user's callback is called with it once if there is
-- one; UpdateDeviceData does not fault, and the storage keeps its size. This holds while fewer than
-- 2^32 - 1 packets of the device have come.
pub update_device_data_lem :
    (m : DataManager) (p : Proto.TrackingDeviceData) (s : DeviceDataStorage)
    (h : List TrackingDeviceData) (d : TrackingDeviceData)
    → lookup (packet_hash p) m.device_data_map ≡ some s
    → is_own s.device p ≡ true
    → Holds s h
    → proto_to_tracking_device_data p ≡ some d
    → length h + 1 < 4294967296
    → (m' : DataManager) × (t : DeviceDataStorage) × (update_device_data m p
        ≡ some (m', calls_of m d))
      × (lookup (packet_hash p) m'.device_data_map ≡ some t)
      × Holds t (h ++ (d ∷ []))
      × (t.buffers.buffer_size ≡ s.buffers.buffer_size)
unfolding update_device_data push_to
update_device_data_lem m p s h d found own v converted room =
    let (t, pushed, w, same, size) = push_data_lem s h p d v own converted room in
    (
      record m { device_data_map = insert (packet_hash p) t m.device_data_map },
      t,
      rw (update_device_data, push_to, found, pushed)
          (called m.device_data_user_callback (proto_to_tracking_device_data p) d
            (record m { device_data_map = insert (packet_hash p) t m.device_data_map }) converted),
      rw (lookup-insert (packet_hash p) (packet_hash p) t m.device_data_map, ==_refl) refl,
      w,
      size,
    )

-- The storage under a packet's hash answers for the device of the packet.
pub count_of_storage :
    (m : DataManager) (p : Proto.TrackingDeviceData) (n : ℕ) (s : DeviceDataStorage)
    → lookup (packet_hash p) m.device_data_map ≡ some s
    → get_latest_data_count m (record { siu_uuid = p.siu_uuid; port_id = p.port_id }) n
      ≡ Device.get_latest_data_count s n
unfolding get_latest_data_count hash_device_id hash
count_of_storage m p n s found = rw (ask, found) refl
