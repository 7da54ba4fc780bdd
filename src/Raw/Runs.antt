-- ===== src/Raw/Runs.antt =====
-- The raw socket transport on a simulated network.
use openethercat.Base.{
  ℕ, ◌+◌, ◌%◌, ◌≤◌, ◌≡◌, refl, List, [], ◌∷◌, ◌++◌, Option, none, some, String, length, replicate,
  arith,
}
use openethercat.Base.Bytes.{byte_at, slice}
use openethercat.Clock.{pos, negsuc}
use openethercat.Config.{NetworkConfiguration, output}
use openethercat.Frame.{build_datagram_frame}
use openethercat.Mailbox.{EscMailboxFrame, mailbox_type_coe, parse_emergency}
use openethercat.Raw.{RawTransport, no_class}
use openethercat.Raw.Answers.{mailbox_read_matching_coe-source}
use openethercat.Raw.Clocks.{read-write_le64_signed, dc_access-IsTallied, IsTallied}
use openethercat.Raw.Carried.{Carried, wires}
use openethercat.Raw.Cycles.{outputs_request, inputs_request, exchange_raw_lem}
use openethercat.Raw.Datagram.{scan, transceive}
use openethercat.Raw.Deadline.{mailbox_read_matching_coe_ends}
use openethercat.Raw.Exchange.{exchange_raw}
use openethercat.Raw.Mapping.{configure_process_image_raw}
use openethercat.Raw.Reading.{read_until, mailbox_read_matching_coe}
use openethercat.Raw.Registers.{
  read_le64_signed, write_le64_signed, read_dc_system_time, write_dc_system_time_offset,
}
use openethercat.Raw.Replies.{transceive_match, scan_shrinks}
use openethercat.Raw.Retries.{counting, mailbox_datagram_with_retry_counts}
use openethercat.Raw.Retry.{mailbox_datagram_with_retry}
use openethercat.Raw.Sim.{
  Net, sim, sim-IsBounded, sim-IsSteady, deliver, broadcast, zeros, raw_at, quiet, raw, request,
  scripted, route, tuning, mailbox_bytes,
}
use openethercat.Raw.Windows.{configure_process_image_raw-contiguous, AreContiguous}

transceive_match_example :
    (1 ≤ 1)
    × (length {A = ℕ} (9 ∷ 8 ∷ []) ≡ length {A = ℕ} (9 ∷ 8 ∷ []))
    × (length {A = ℕ} (9 ∷ 8 ∷ []) + 28 ≤ 1518)
unfolding transceive byte_at slice
transceive_match_example =
    transceive_match sim sim-IsBounded zeros (some 3) 2 request raw
      (record { working_counter = 1; payload = 9 ∷ 8 ∷ [] }) refl

-- A frame of 40 zeros, and behind it the answer to the request.
abbrev crossed : Net
unfolding build_datagram_frame
crossed =
    deliver (build_datagram_frame broadcast broadcast request)
      (record quiet { inbox = replicate 40 0 ∷ [] })

scan_shrinks_example : length {A = ℕ} (9 ∷ 8 ∷ []) + 28 ≤ 40
unfolding crossed scan byte_at slice
scan_shrinks_example =
    scan_shrinks sim sim-IsBounded zeros (some 3) 2 0 1 request 3 1518 crossed (replicate 40 0)
      (record { working_counter = 1; payload = 9 ∷ 8 ∷ [] }) refl refl refl

abbrev exchanging : RawTransport Net
exchanging = scripted ((1 ∷ 2 ∷ []) ∷ (5 ∷ 6 ∷ []) ∷ [])

exchange_raw_lem_example :
    (length {A = ℕ} (5 ∷ 6 ∷ []) ≡ length {A = ℕ} (1 ∷ 2 ∷ []))
    × (1 ≤ 1)
    × (1 ≤ 1)
    × (0 + 1 ≡ 1)
    × (◌≡◌ {A = String} "" "")
    × ((sent : List ℕ) × Carried sim zeros
          (wires exchanging)
          (outputs_request (1 ∷ 2 ∷ []) 0 7)
          1
          sent)
    × Carried sim zeros (wires exchanging) (inputs_request 2 0 8) 1 (5 ∷ 6 ∷ [])
unfolding exchange_raw byte_at slice
exchange_raw_lem_example =
    exchange_raw_lem sim sim-IsBounded zeros (1 ∷ 2 ∷ []) (0 ∷ 0 ∷ []) exchanging (5 ∷ 6 ∷ []) refl

abbrev by_length : EscMailboxFrame → Option ℕ
by_length frame = some (length frame.payload)

mailbox_read_matching_coe_ends_example :
    read_until sim zeros by_length route 0 2000000 5
      (record { idle_polls = 0; error_class = no_class; text = "" })
      raw
    ≡ mailbox_read_matching_coe sim zeros by_length route 0 no_class "" raw
mailbox_read_matching_coe_ends_example =
    mailbox_read_matching_coe_ends sim sim-IsSteady zeros by_length route 0 no_class "" 5 raw
      (omega arith)

abbrev one_answer : RawTransport Net
one_answer = scripted (mailbox_bytes 0 (3 ∷ 0 ∷ 96 ∷ []) ∷ [])

mailbox_read_matching_coe-source_example :
    (frame : EscMailboxFrame) × (by_length frame ≡ some 3)
    × (frame.type ≡ mailbox_type_coe)
    × (frame.counter % 8 ≡ 0 % 8)
    × (parse_emergency zeros frame.payload 0 ≡ none)
unfolding mailbox_read_matching_coe byte_at slice
mailbox_read_matching_coe-source_example =
    mailbox_read_matching_coe-source sim zeros by_length route 0 no_class "" one_answer 3 refl

mailbox_datagram_with_retry_counts_example :
    (0 + 1 ≤ 1) × (1 ≤ 0 + 1 + 2) × (0 + 1 ≡ 1) × (0 + 0 ≡ 0)
unfolding mailbox_datagram_with_retry counting byte_at slice
mailbox_datagram_with_retry_counts_example =
    mailbox_datagram_with_retry_counts sim zeros tuning request "" (raw_at (quiet, 0))

abbrev one_output : NetworkConfiguration
one_output = record {
  slaves = (record { name = "A"; alias = 0; position = 1; vendor_id = 2; product_code = 3 }) ∷ [];
  signals =
      (record {
        logical_name = "Out";
        direction = output;
        slave_name = "A";
        byte_offset = 0;
        bit_offset = 0;
      })
      ∷ [];
  input_bytes = 0;
  output_bytes = 4;
}

-- SM2 at 0x1100 with two bytes.
abbrev mapped : RawTransport Net
mapped = scripted ((0 ∷ 17 ∷ 2 ∷ 0 ∷ 0 ∷ 0 ∷ 0 ∷ 0 ∷ []) ∷ [])

configure_process_image_raw-contiguous_example :
    (end : ℕ) × AreContiguous 0
      (configure_process_image_raw sim zeros (λ ps. ps) one_output mapped).0.output_windows
      end
unfolding configure_process_image_raw byte_at slice
configure_process_image_raw-contiguous_example =
    configure_process_image_raw-contiguous sim zeros (λ ps. ps) one_output mapped refl

windows_of_run :
    (configure_process_image_raw sim zeros (λ ps. ps) one_output mapped).0.output_windows
    ≡ record { slave_position = 1; physical_start = 4352; window_length = 2; logical_start = 0 }
      ∷ []
unfolding configure_process_image_raw byte_at slice
windows_of_run = refl

read-write_le64_signed_example :
    read_le64_signed zeros (write_le64_signed (negsuc 4) ++ (7 ∷ [])) 0 ≡ negsuc 4
read-write_le64_signed_example = read-write_le64_signed zeros (negsuc 4) (7 ∷ []) (omega arith)

dc_access-IsTallied_example :
    IsTallied (read_dc_system_time sim zeros 1 raw).0.dc_diagnostics
    × IsTallied (write_dc_system_time_offset sim zeros 1 (pos 5) raw).0.dc_diagnostics
dc_access-IsTallied_example = dc_access-IsTallied sim zeros 1 (pos 5) raw (refl, refl)
