-- ===== src/Raw/Discovery.antt =====
-- src/transport/linux_raw_socket_transport_topology.cpp: the slaves that answer at the positions from 0
-- on, with their identities from CoE or from the EEPROM. An upload that uses up its fuel ends the scan
-- without a result.
use openethercat.Base.{
  ℕ, zero, suc, ◌+◌, ◌*◌, ◌/◌, ◌%◌, Bool, true, false, ◌&&◌, ◌||◌, not, List, [], ◌∷◌, ◌++◌, Option,
  none, some, String, if◌then◌else◌, ltb, leb, ◌==◌, length, replicate, is_empty,
}
use openethercat.Base.Bytes.{read_le16, read_le32, put_le16}
use openethercat.Raw.{RawTransport, System, done, failed}
use openethercat.Raw.Datagram.{command_aprd, command_apwr, to_auto_increment_address, send_next}
use openethercat.Raw.Exchange.{is_some}
use openethercat.Raw.Retry.{sleep_ms}
use openethercat.Raw.Upload.{sdo_upload_raw}
use openethercat.SlaveState.{SlaveState, init, decode_al_state}
use openethercat.Topology.{SlaveInfo, Snapshot}

module _ {N : Type 0} (sys : System N) (over : ℕ → ℕ) where
  -- The text of an error stays in the transport.
  unfoldable read_at : ℕ → ℕ → ℕ → RawTransport N → RawTransport N × Option (List ℕ)
  unfolding send_next
  read_at adp ado size t =
      let (sent, result) = send_next sys over command_aprd adp ado (replicate size 0) t in
      elim result [
        | failed why ↦ (record sent { error = why }, none)
        | done reply ↦ (sent, if ltb (length reply.payload) size then none else some reply.payload)
      ]

  unfoldable write_at : ℕ → ℕ → List ℕ → RawTransport N → RawTransport N × Bool
  unfolding send_next
  write_at adp ado value t =
      let (sent, result) = send_next sys over command_apwr adp ado value t in
      elim result [ failed why ↦ (record sent { error = why }, false) | done reply ↦ (sent, true) ]

  -- The status is read until the EEPROM is no longer busy (bit 15); bits 11 to 14 are its errors.
  unfoldable pub await_eeprom : ℕ → ℕ → ℕ → RawTransport N → RawTransport N × Option ℕ
  unfolding read_at read_le16 read_le32 sleep_ms
  await_eeprom adp deadline zero t = (t, none)
  await_eeprom adp deadline (suc rounds) t =
      let (asked, status_bytes) = read_at adp 0x0502 2 t in
      let rest = await_eeprom adp deadline rounds (sleep_ms sys 1 asked) in
      let (read, value) = read_at adp 0x0508 4 asked in
      if not (ltb (sys.now t.system) deadline) then (t, none) else elim status_bytes [
        | none ↦ (asked, none)
        | some bytes ↦
            let status = read_le16 over bytes 0 in
            if not (status / 32768 % 2 == 0)
            then rest
            else if not (status / 2048 % 16 == 0)
            then (asked, none)
            else elim value [
              | none ↦ (read, none)
              | some word ↦ (read, some (read_le32 over word 0))
            ]
      ]

  -- A hundred milliseconds, and no more rounds than that.
  unfoldable read_sii_word32 : ℕ → ℕ → RawTransport N → RawTransport N × Option ℕ
  unfolding write_at await_eeprom put_le16
  read_sii_word32 adp word t =
      let (addressed, ok) = write_at adp 0x0504 (put_le16 word ++ (0 ∷ 0 ∷ [])) t in
      let (asked, ok2) = write_at adp 0x0502 (put_le16 0x0100) addressed in
      if not ok
      then (addressed, none)
      else if not ok2
      then (asked, none)
      else await_eeprom adp (sys.now asked.system + 100 * 1000000) 100 asked

  unfoldable register16 : ℕ → ℕ → RawTransport N → RawTransport N × ℕ
  unfolding read_at read_le16
  register16 adp ado t =
      let (read, bytes) = read_at adp ado 2 t in
      (read, elim bytes [ none ↦ 0 | some b ↦ read_le16 over b 0 ])

  -- An identity object, if it could be read and has four bytes.
  unfoldable identity_object : ℕ → ℕ → ℕ → RawTransport N → Option (RawTransport N × Option ℕ)
  unfolding sdo_upload_raw read_le32
  identity_object fuel position sub_index t =
      elim (sdo_upload_raw sys over fuel position (record { index = 0x1018; sub_index = sub_index })
        t) [
          | none ↦ none
          | some answered ↦
              let (after, call) = answered in
              some (
                after,
                if call.ok && leb 4 (length call.bytes)
                    then some (read_le32 over call.bytes 0)
                    else none,
              )
        ]

  -- A value that was not read stays 0.
  abbrev or_zero : Option ℕ → ℕ
  or_zero none = 0
  or_zero (some n) = n

  -- The EEPROM is asked unless both identity objects were read.
  unfoldable identified :
      SlaveInfo → Option ℕ → Option ℕ → RawTransport N → RawTransport N × SlaveInfo
  unfolding read_sii_word32 to_auto_increment_address
  identified info vendor product t =
      let adp = to_auto_increment_address info.position in
      let (read_vendor, sii_vendor) = read_sii_word32 adp 0x0008 t in
      let (read_both, sii_product) = read_sii_word32 adp 0x000a read_vendor in
      let from_coe = record info {
        vendor_id = or_zero vendor;
        product_code = or_zero product;
        identity_from_coe = is_some vendor && is_some product;
      } in
      if is_some vendor && is_some product then (t, from_coe) else (
        read_both,
        elim sii_vendor [
          | none ↦ from_coe
          | some v ↦ elim sii_product [
            | none ↦ from_coe
            | some p ↦ record from_coe { vendor_id = v; product_code = p; identity_from_sii = true }
          ]
        ],
      )

  abbrev state_of : Option SlaveState → SlaveState
  state_of none = init
  state_of (some s) = s

  -- The entry of a slave whose AL status was read.
  unfoldable slave_info : ℕ → ℕ → ℕ → RawTransport N → Option (RawTransport N × SlaveInfo)
  unfolding register16 identity_object identified decode_al_state to_auto_increment_address
  slave_info fuel position al_raw t =
      let adp = to_auto_increment_address position in
      let (typed, esc_type) = register16 adp 0x0008 t in
      let (revised, esc_revision) = register16 adp 0x000a typed in
      let info : SlaveInfo = record {
        position = position;
        vendor_id = 0;
        product_code = 0;
        esc_type = esc_type;
        esc_revision = esc_revision;
        identity_from_coe = false;
        identity_from_sii = false;
        al_state_valid = is_some (decode_al_state al_raw);
        al_state = state_of (decode_al_state al_raw);
        online = true;
      } in
      elim (identity_object fuel position 1 revised) [
        | none ↦ none
        | some first ↦ elim (identity_object fuel position 2 first.0) [
          | none ↦ none
          | some second ↦ some (identified info first.1 second.1 second.0)
        ]
      ]

  -- The positions from `position` on, `left` of them; the first silent one but 0 ends the chain.
  unfoldable scan_positions : ℕ → ℕ → ℕ → RawTransport N → Option (RawTransport N × List SlaveInfo)
  unfolding read_at read_le16 slave_info to_auto_increment_address
  scan_positions fuel position zero t = some (t, [])
  scan_positions fuel position (suc left) t =
      let (asked, al) = read_at (to_auto_increment_address position) 0x0130 2 t in
      let rest = scan_positions fuel (suc position) left in
      elim al [
        | none ↦ if position == 0 then rest asked else some (asked, [])
        | some bytes ↦ elim (slave_info fuel position (read_le16 over bytes 0) asked) [
          | none ↦ none
          | some found ↦ elim (rest found.0) [
            | none ↦ none
            | some others ↦ some (others.0, found.1 ∷ others.1)
          ]
        ]
      ]

  unfoldable discover_topology_raw :
      ℕ → RawTransport N → Option (RawTransport N × (Bool × (Snapshot × String)))
  unfolding scan_positions
  discover_topology_raw fuel t =
      if not (is_some t.socket_fd)
      then some
          (t, (false, (record { slaves = []; redundancy_healthy = true }, "transport not open")))
      else elim (scan_positions fuel 0 256 t) [
        | none ↦ none
        | some found ↦ some (
          found.0,
          (
            true,
            (
              record {
                slaves = found.1;
                redundancy_healthy =
                    is_some found.0.secondary_socket_fd || not found.0.redundancy_enabled;
              },
              "",
            ),
          ),
        )
      ]

  unfoldable is_redundancy_link_healthy_raw : RawTransport N → Bool × String
  is_redundancy_link_healthy_raw t =
      if not t.redundancy_enabled
      then (true, "")
      else if is_empty t.secondary_ifname
      then (false, "redundancy enabled but secondary interface not configured")
      else (is_some t.secondary_socket_fd, "")
