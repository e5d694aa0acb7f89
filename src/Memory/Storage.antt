-- ===== src/Memory/Storage.antt =====
-- The memory of src/device_data_storage.cpp: two arrays of packets, whose members `PushData`
-- replaces, and the descriptor of the device. What a packet holds beside its memory is in
-- Storage/Device. An index outside an array is a fault.
pub mod Laws
use ommo_sdk_external.Prelude.{
  ℕ, zero, suc, ◌+◌, Bool, true, false, not, Option, none, some, List, [], ◌∷◌, get_elem?, set,
  replicate, if◌then◌else◌, ltb, ◌==◌,
}
use ommo_sdk_external.Memory.{
  Ptr, M, Heap, pure, ◌>>=◌, ◌>>◌, continue, new, delete, Object, Array, move_out,
}
use ommo_sdk_external.Memory.Structs.{DescriptorMembers, DataMembers, PacketMembers}
use ommo_sdk_external.Memory.Create.{new_device_descriptor, new_tracking_device_data, moved}
use ommo_sdk_external.Memory.Destroy.{destroy_device_packet_members, destroy_device_descriptor}

-- `writes_to_1` says to which array `write_buffer_.packet_buffer_ptr` points; `read_buffer_` points
-- to the other. `data_num` is that of the write buffer.
pub record StorageMemory : Type 0 where
  pub device : Object DescriptorMembers
  pub buffer_size : ℕ
  pub packet_buffer1 : Array PacketMembers
  pub packet_buffer2 : Array PacketMembers
  pub writes_to_1 : Bool
  pub data_num : ℕ

-- `packet_buffer1_[i] = {}`
abbrev pub empty_packet : PacketMembers
empty_packet = record {
  device_data = record {
    raw_sensor_data = none;
    poses = none;
    buttons = none;
    latency_timestamps = none;
  };
}

unfoldable pub new_storage_memory : ℕ → M StorageMemory
unfolding new_device_descriptor
new_storage_memory size = do
  device ← new_device_descriptor
  buffer1 ← new
  buffer2 ← new
  pure (record {
    device = device;
    buffer_size = size;
    packet_buffer1 = record { address = some buffer1; elements = replicate size empty_packet };
    packet_buffer2 = record { address = some buffer2; elements = replicate size empty_packet };
    writes_to_1 = false;
    data_num = 0;
  })

-- The slot of an array is emptied and takes over the members of a converted packet.
abbrev pub replace_slot : List PacketMembers → ℕ → PacketMembers → M (List PacketMembers)
replace_slot packets i old =
    destroy_device_packet_members old
    >> (moved new_tracking_device_data >>= λ d. pure (set packets i (record { device_data = d })))

abbrev pub fault : {A : Type 0} → M A
fault h = none

abbrev pub replace_found : List PacketMembers → ℕ → Option PacketMembers → M (List PacketMembers)
replace_found packets i none = fault
replace_found packets i (some old) = replace_slot packets i old

unfoldable pub replace_packet : Array PacketMembers → ℕ → M (Array PacketMembers)
unfolding destroy_device_packet_members new_tracking_device_data moved
replace_packet r i =
    replace_found r.elements i (get_elem? r.elements i) >>= λ xs. pure (record r { elements = xs })

-- The write, into the array that the write buffer points to.
unfoldable pub write_slot : StorageMemory → ℕ → M StorageMemory
unfolding replace_packet
write_slot s i =
    if s.writes_to_1
    then (replace_packet s.packet_buffer1 i >>= λ r. pure (record s { packet_buffer1 = r }))
    else (replace_packet s.packet_buffer2 i >>= λ r. pure (record s { packet_buffer2 = r }))

-- `SwitchBufferPointer`
abbrev pub switched : StorageMemory → StorageMemory
switched s = record s { writes_to_1 = not s.writes_to_1 }

-- `data_num++`, and the switch when the write buffer is full.
abbrev pub advance : StorageMemory → StorageMemory
advance s =
    if s.data_num + 1 == s.buffer_size
    then record (switched s) { data_num = 0 }
    else record s { data_num = s.data_num + 1 }

-- `PushData` of a packet of the device of the storage; any other packet is refused before.
unfoldable pub push_memory : StorageMemory → M StorageMemory
unfolding write_slot
push_memory s =
    if ltb s.data_num s.buffer_size
    then (write_slot s s.data_num >>= λ w. pure (advance w))
    else (write_slot (switched s) 0 >>= λ w. pure (record w { data_num = 1 }))

-- The loop of the destructor, which empties the packets of both arrays in turn.
unfoldable pub empty_both : List PacketMembers → List PacketMembers → M (Unit {0})
unfolding destroy_device_packet_members
empty_both [] ys = pure tt
empty_both (x ∷ xs) [] = fault
empty_both (x ∷ xs) (y ∷ ys) = do
  destroy_device_packet_members x
  destroy_device_packet_members y
  empty_both xs ys

-- The destructor, and then that of the member `device_`.
unfoldable pub destroy_storage_memory : StorageMemory → M (Unit {0})
unfolding empty_both destroy_device_descriptor
destroy_storage_memory s = do
  empty_both s.packet_buffer1.elements s.packet_buffer2.elements
  delete s.packet_buffer1.address
  delete s.packet_buffer2.address
  destroy_device_descriptor (some s.device)

-- So many packets are pushed.
unfoldable pub push_many : ℕ → StorageMemory → M StorageMemory
unfolding push_memory
push_many zero s = pure s
push_many (suc n) s = do s' ← push_memory s; push_many n s'
