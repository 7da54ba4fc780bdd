-- ===== src/Master/Calls.antt =====
-- The mailbox calls and updateDistributedClock of src/master/ethercat_master.cpp, with the effects that
-- the policy of the synchronisation monitor has on the master. The state of the clock is that of
-- Clock.Loop.
use openethercat.Base.{ℕ, Bool, true, List, Option, none, some, String, if◌then◌else◌}
use openethercat.Clock.{ℤ}
use openethercat.Clock.Controller.{Doubles, DcSyncSample}
use openethercat.Clock.Loop as loop
use openethercat.Clock.Loop.{DcLoop}
use openethercat.Clock.Quality.{DcPolicyAction, warn, degrade, recover}
use openethercat.Mailbox.{EmergencyMessage}
use openethercat.Master.{Master}
use openethercat.Master.Log.{set_error}
use openethercat.Master.Recovery.{recover_network}
use openethercat.Master.Wait.{Host}
use openethercat.Sdo.{SdoAddress}
use openethercat.Services as services
use openethercat.Services.{SdoResponse}
use openethercat.Transport.{Transport, PdoMappingEntry, FoeRequest, FoeResponse}

module _ {T : Type 0} where
  -- A call of a service, which the master passes on to its transport.
  abbrev pub on_transport : {A : Type 0} → (T → T × A) → Master T → Master T × A
  on_transport call m =
      let (after, result) = call m.transport in (record m { transport = after }, result)

  module _ (io : Transport T) where
    unfoldable pub sdo_upload : ℕ → SdoAddress → Master T → Master T × SdoResponse
    sdo_upload position address = on_transport (services.upload io position address)

    unfoldable pub sdo_download : ℕ → SdoAddress → List ℕ → Master T → Master T × SdoResponse
    sdo_download position address bytes = on_transport (services.download io position address bytes)

    unfoldable pub configure_rx_pdo :
        ℕ → List PdoMappingEntry → String → Master T → Master T × (Bool × String)
    configure_rx_pdo position entries error =
        on_transport (services.configure_rx_pdo io position entries error)

    unfoldable pub configure_tx_pdo :
        ℕ → List PdoMappingEntry → String → Master T → Master T × (Bool × String)
    configure_tx_pdo position entries error =
        on_transport (services.configure_tx_pdo io position entries error)

    unfoldable pub drain_emergencies : ℕ → Master T → Master T × List EmergencyMessage
    drain_emergencies max_messages = on_transport (services.drain_emergency_queue io max_messages)

    unfoldable pub foe_read_file : ℕ → FoeRequest → Master T → Master T × FoeResponse
    foe_read_file position request = on_transport (services.read_file io position request)

    unfoldable pub foe_write_file :
        ℕ → FoeRequest → List ℕ → String → Master T → Master T × (Bool × String)
    foe_write_file position request bytes error =
        on_transport (services.write_file io position request bytes error)

    unfoldable pub eoe_send_frame : ℕ → List ℕ → String → Master T → Master T × (Bool × String)
    eoe_send_frame position frame error =
        on_transport (services.send_ethernet_over_ethercat io position frame error)

    unfoldable pub eoe_receive_frame :
        ℕ → List ℕ → String → Master T → Master T × (Bool × (List ℕ × String))
    eoe_receive_frame position frame error =
        on_transport (services.receive_ethernet_over_ethercat io position frame error)

    module _ (host : Host T) where
      -- What the policy does, if it was called for.
      unfoldable pub act_on_quality : Option DcPolicyAction → Master T → Master T
      unfolding recover_network
      act_on_quality none m = m
      act_on_quality (some warn) m = set_error "DC sync out-of-window threshold exceeded" m
      act_on_quality (some degrade) m =
          set_error "DC sync degraded: out-of-window threshold exceeded"
            (record m { degraded = true })
      act_on_quality (some recover) m =
          let told = set_error "DC sync recovery requested due to out-of-window threshold" m in
          if told.started then (recover_network io host told).0 else told

      unfoldable pub update_distributed_clock :
          {F : Type 0}
          → Doubles F
          → (ℕ → ℕ → ℕ)
          → DcSyncSample
          → DcLoop F × Master T
          → (DcLoop F × Master T) × Option ℤ
      unfolding act_on_quality
      update_distributed_clock double index sample (l, m) =
          let (after, (action, correction)) = loop.update_distributed_clock double index sample l in
          ((after, act_on_quality action m), correction)
