-- ===== src/Hash.antt =====
-- `Hash` of src/sdk_utils.cpp: the key of a device in every map of the program.
pub mod Or
use Prim.Native.Nat.{bit_or}
use ommo_sdk_external.Prelude.{
  ℕ, ◌+◌, ◌*◌, ◌/◌, ◌%◌, ◌^◌, ◌<◌, ◌≤◌, ◌≡◌, ◌≢◌, refl, ap, ◌∙◌, sym, arith,
}
use ommo_sdk_external.Types.{DeviceId}
use Or.{shift-bit_or, bit_or_self, byte-bit_or}

-- `hash` is a `uint64_t`: the shift drops what leaves the 64 bits.
unfoldable pub hash : ℕ → ℕ → ℕ
hash siu_uuid port_id = bit_or (siu_uuid * 256 % 18446744073709551616) port_id

-- `Hash(const DeviceID&)`; the overloads on a descriptor and on device data read the same fields.
unfoldable pub hash_device_id : DeviceId → ℕ
unfolding hash
hash_device_id r = hash r.siu_uuid r.port_id

-- With a port number of one byte the hash is the two fields side by side.
pub hash-eq :
    (siu_uuid port_id : ℕ)
    → siu_uuid < 4294967296
    → port_id < 256
    → hash siu_uuid port_id ≡ siu_uuid * 256 + port_id
unfolding hash
hash-eq siu_uuid port_id h k =
    let e : siu_uuid * 256 % 18446744073709551616 ≡ siu_uuid * 256 = omega arith in
    rw e (byte-bit_or siu_uuid port_id k)

-- Two devices with `uint32_t` identifiers and port numbers below 256 have one hash only if they are
-- the same device.
pub hash_injective :
    (d e : DeviceId)
    → d.siu_uuid < 4294967296
    → e.siu_uuid < 4294967296
    → d.port_id < 256
    → e.port_id < 256
    → hash_device_id d ≡ hash_device_id e
    → d ≡ e
unfolding hash_device_id
hash_injective d e hd he kd ke p =
    ground (arith, hash-eq d.siu_uuid d.port_id hd kd, hash-eq e.siu_uuid e.port_id he ke)

-- A larger port number runs into the bits of the identifier: for every device there is a port
-- number, a `uint32_t` while the identifier is below 2^24, at which another device has its hash.
pub hash_collides :
    (siu_uuid port_id : ℕ)
    → siu_uuid < 16777216
    → port_id < 256
    → (siu_uuid * 256 + port_id < 4294967296)
      × (hash siu_uuid (siu_uuid * 256 + port_id) ≡ hash siu_uuid port_id)
unfolding hash
hash_collides siu_uuid port_id h k =
    let e : siu_uuid * 256 % 18446744073709551616 ≡ siu_uuid * 256 = omega arith in
    (
      omega arith,
      rw (e, shift-bit_or siu_uuid siu_uuid port_id k, bit_or_self, byte-bit_or siu_uuid port_id k),
    )
