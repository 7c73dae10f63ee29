-- ===== src/Descriptor/Access.antt =====
-- What an address access command carries.
use avdecc_lib.Prelude.{
  ℕ, ◌+◌, ◌-◌, ◌*◌, ◌/◌, ◌%◌, ◌<◌, ◌≡◌, ◌≤◌, ◌⊎◌, refl, true, List, arith, length, leb, inl, inr,
  Bool-cases,
}
use avdecc_lib.Output.{cmd_with_notification}
use avdecc_lib.EndStation.Descriptors.{Descriptor}
use avdecc_lib.Descriptor.Frames.{ether_hdr_size}
use avdecc_lib.Descriptor.Station.{
  AaData, aa_frame, system_queue_tx, overrun, Station, aa_data, send_aecp_address_access_cmd,
}

module _ (kind : ℕ → Descriptor) (e : Station) where
  -- How a receiver takes the fields apart.
  abbrev pub mode_of : AaData → ℕ
  mode_of d = d.mode_length / 4096

  abbrev pub length_of : AaData → ℕ
  length_of d = d.mode_length % 4096

  abbrev pub address_of : AaData → ℕ
  address_of d = d.address_upper * 4294967296 + d.address_lower

  -- For a mode of 4 bits, a length of 12 bits, which is the number of octets given, and an address of 64 bits, if both writes succeed, send_aecp_address_access_cmd copies octets behind the end of a buffer exactly where the frame is longer than the payload of cmd_frame or than the 2048 octets of a queued frame; otherwise it queues one frame with notification, whose fields give back the mode, the length and the address, and which ends behind its octets of memory.
  pub send_aecp_address_access_cmd_lem :
      (notification_id mode len address : ℕ) (memory_data : List ℕ)
      → mode < 16
      → len < 4096
      → address < 18446744073709551616
      → length memory_data ≡ len
      → ((d : AaData) → e.is_aa_written d ≡ true)
      → ((d : AaData) → e.is_aa_tlv_written d ≡ true)
      → let call =
          send_aecp_address_access_cmd kind e notification_id mode len address memory_data in
        let size = ether_hdr_size + (e.aa_len + e.aa_tlv_len + length memory_data) in
        ((call ≡ overrun) × ((e.payload_size < size) ⊎ (2048 < size)))
        ⊎ ((d : AaData) × (call
              ≡ system_queue_tx notification_id cmd_with_notification (
                  aa_frame e.owner.mac size d memory_data e.owner.entity_id (
                    e.aa_len
                    + e.aa_tlv_len
                    + length memory_data
                    - e.owner.common_control_header_len)))
            × (size ≤ e.payload_size)
            × (size ≤ 2048)
            × (mode_of d ≡ mode)
            × (length_of d ≡ len)
            × (address_of d ≡ address))
  unfolding send_aecp_address_access_cmd
  send_aecp_address_access_cmd_lem notification_id mode len address memory_data m l a k x y =
      let d = aa_data kind e mode len address in
      let size = ether_hdr_size + (e.aa_len + e.aa_tlv_len + len) in
      elim (Bool-cases (leb size e.payload_size)) [
        | inl q ↦ elim (Bool-cases (leb size 2048)) [
          | inl r ↦ inr (
            d,
            rw (send_aecp_address_access_cmd, x d, y d, k, q, r) refl,
            ground (arith, k, q),
            ground (arith, k, r),
            omega (arith, m, l),
            omega (arith, m, l),
            omega (arith, a),
          )
          | inr r ↦
              inl
                (rw (send_aecp_address_access_cmd, x d, y d, q, r) refl, inr (ground (arith, k, r)))
        ]
        | inr q ↦
            inl (rw (send_aecp_address_access_cmd, x d, y d, q) refl, inl (ground (arith, k, q)))
      ]
