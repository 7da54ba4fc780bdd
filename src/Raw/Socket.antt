-- ===== src/Raw/Socket.antt =====
-- Opening and closing of src/transport/linux_raw_socket_transport_core_io.cpp.
use text.Mathlib.Text.{◌==◌ as str_eq}
use openethercat.Base.{
  ℕ, Bool, true, false, ◌&&◌, not, [], Option, none, some, String, ◌<>◌, if◌then◌else◌, ltb,
  is_empty,
}
use openethercat.Frame.{Mac}
use openethercat.Raw.{
  RawTransport, System, Outcome, done, failed, MailboxStatusMode, strict, hybrid, poll, no_class,
  no_dc_diagnostics,
}

pub record Link : Type 0 where
  pub link_fd : ℕ
  pub link_index : ℕ

unfoldable parse_mailbox_status_mode : Option String → MailboxStatusMode
parse_mailbox_status_mode none = hybrid
parse_mailbox_status_mode (some text) =
    if str_eq text "strict" then strict else if str_eq text "poll" then poll else hybrid

module _ {N : Type 0} (sys : System N) where
  -- A socket that was made is closed again if a later call fails. The address given is overwritten as
  -- soon as the interface has told its own, before the socket is bound.
  unfoldable open_ethercat_interface_socket : String → Mac → N → N × (Mac × Outcome Link)
  open_ethercat_interface_socket ifname old n =
      let (made, socket) = sys.socket n in
      elim socket [
        | failed why ↦ (made, (old, failed ("socket() failed: " <> why)))
        | done fd ↦
            let (asked, index) = sys.interface_index fd ifname made in
            elim index [
              | failed why ↦
                  (sys.close_socket fd asked, (old, failed ("ioctl(SIOCGIFINDEX) failed: " <> why)))
              | done if_index ↦
                  let (read, address) = sys.hardware_address fd ifname asked in
                  elim address [
                    | failed why ↦ (
                      sys.close_socket fd read,
                      (old, failed ("ioctl(SIOCGIFHWADDR) failed: " <> why)),
                    )
                    | done mac ↦
                        let (bound, refusal) = sys.bind fd if_index read in
                        elim refusal [
                          | some why ↦
                              (sys.close_socket fd bound, (mac, failed ("bind() failed: " <> why)))
                          | none ↦
                              (bound, (mac, done (record { link_fd = fd; link_index = if_index })))
                        ]
                  ]
            ]
      ]

  abbrev close_fd : Option ℕ → N → N
  close_fd none n = n
  close_fd (some fd) n = sys.close_socket fd n

  -- Error texts, counters of the mailbox and the configuration stay.
  unfoldable close_raw : RawTransport N → RawTransport N
  close_raw t = record t {
    socket_fd = none;
    if_index = 0;
    secondary_socket_fd = none;
    secondary_if_index = 0;
    last_working_counter = 0;
    last_output_working_counter = 0;
    last_input_working_counter = 0;
    last_frame_used_secondary = false;
    output_windows = [];
    emergencies = [];
    last_error_class = no_class;
    dc_diagnostics = no_dc_diagnostics;
    system = close_fd t.secondary_socket_fd (close_fd t.socket_fd t.system);
  }

  -- The limit from the environment, at least one.
  unfoldable queue_limit_from_env : ℕ → ℕ
  queue_limit_from_env current = elim (sys.getenv "OEC_MAILBOX_EMERGENCY_QUEUE_LIMIT") [
    | none ↦ current
    | some text ↦ elim (sys.stoul text) [ none ↦ current | some n ↦ if ltb n 1 then 1 else n ]
  ]

  -- The state between `close` and the first socket.
  unfoldable prepared : RawTransport N → RawTransport N
  unfolding close_raw parse_mailbox_status_mode queue_limit_from_env
  prepared t =
      let closed = close_raw t in
      record closed {
        status_mode = parse_mailbox_status_mode (sys.getenv "OEC_MAILBOX_STATUS_MODE");
        emergency_queue_limit = queue_limit_from_env closed.emergency_queue_limit;
      }

  -- The second interface, where there is to be one; its hardware address is not used.
  unfoldable open_secondary : RawTransport N → RawTransport N × Bool
  unfolding open_ethercat_interface_socket close_raw
  open_secondary t =
      let (after, (_, second)) =
        open_ethercat_interface_socket t.secondary_ifname t.source_mac t.system in
      if not (t.redundancy_enabled && not (is_empty t.secondary_ifname))
      then (record t { error = "" }, true)
      else elim second [
        | failed why ↦ (close_raw (record t { error = why; system = after }), false)
        | done link ↦ (
          record t {
            secondary_socket_fd = some (link.link_fd);
            secondary_if_index = link.link_index;
            error = "";
            system = after;
          },
          true,
        )
      ]

  unfoldable open_raw : RawTransport N → RawTransport N × Bool
  unfolding prepared open_ethercat_interface_socket open_secondary close_raw
  open_raw t =
      let ready = prepared t in
      let (after, (mac, first)) =
        open_ethercat_interface_socket ready.ifname ready.source_mac ready.system in
      elim first [
        | failed why ↦
            (close_raw (record ready { error = why; source_mac = mac; system = after }), false)
        | done link ↦ open_secondary (record ready {
          socket_fd = some (link.link_fd);
          if_index = link.link_index;
          source_mac = mac;
          system = after;
        })
      ]
