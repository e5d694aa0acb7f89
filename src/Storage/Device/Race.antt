-- ===== src/Storage/Device/Race.antt =====
-- PushData as the steps that another thread can see. Readers hold `switch_mutex_` in shared mode, and
-- PushData holds it, exclusively, only inside SwitchBufferPointer. So a reader may run between any
-- two of these steps: the packet is saved and counted; the buffers are switched; the count of the
-- write buffer is set to 0.
use ommo_sdk_external.Prelude.{◌+◌, ◌-◌, ◌≡◌, some, ◌∷◌, [], List, arith, length, ltb, true}
use ommo_sdk_external.Buffer.{Packet, success, switch_buffer_pointer}
use ommo_sdk_external.Buffer.Log.Save.{saved}
use ommo_sdk_external.Storage.{respond_one}
use ommo_sdk_external.Storage.Index.{oldest, read-at}
use ommo_sdk_external.Storage.Device.{DeviceDataStorage, get_latest_data}
use ommo_sdk_external.Storage.Device.Refine.{Holds}
use ommo_sdk_external.Types.{TrackingDeviceData}

-- The storage as a reader finds it after the switch, and before the count is set to 0.
abbrev pub between : DeviceDataStorage → TrackingDeviceData → DeviceDataStorage
between s d = record s { buffers = switch_buffer_pointer (saved s.buffers d) }

-- While the push that fills the write buffer of a valid storage with a full read buffer is between
-- the switch and the reset, `GetLatestData()` succeeds with a packet that is `buffer_size` packets
-- older than the one just saved.
pub stale_read :
    (s : DeviceDataStorage) (h : List TrackingDeviceData) (d : TrackingDeviceData)
    → Holds s h
    → s.buffers.read_buffer.data_num ≡ s.buffers.buffer_size
    → s.buffers.write_buffer.data_num + 1 ≡ s.buffers.buffer_size
    → (p : Packet TrackingDeviceData) × (get_latest_data (between s d)
        ≡ some (record { state = success; packets = p ∷ []; packet_count = 1 }))
      × (p.packet_idx + s.buffers.buffer_size ≡ length h)
unfolding get_latest_data switch_buffer_pointer respond_one
stale_read s h d v full last =
    let (x, found) =
      read-at s.buffers h (s.buffers.read_buffer.data_num - 1) v (omega (arith, v)) in
    let held : ltb 0 s.buffers.read_buffer.data_num ≡ true = ground (arith, v.size_pos) in
    (
      record {
        packet_idx = oldest s.buffers h + (s.buffers.read_buffer.data_num - 1);
        payload = x;
      },
      rw (held, found),
      omega (arith, v),
    )
