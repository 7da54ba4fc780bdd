-- ===== src/Lib.antt =====
-- openEtherCAT: a model of the EtherCAT master library and theorems about it.
--
-- The program. A master (`src/master/ethercat_master.cpp`) exchanges a process image with slaves through a
-- transport (`include/openethercat/transport/i_transport.hpp`). Around the cycle it binds names to bits
-- of the image (`src/mapping/io_mapper.cpp`), validates its configuration
-- (`src/config/config_validator.cpp`), diagnoses and recovers slaves
-- (`src/master/slave_diagnostics.cpp`), watches the topology (`src/master/topology_manager.cpp`), and
-- offers mailbox services (`src/master/coe_mailbox.cpp`, `src/master/foe_eoe.cpp`). Below the transport
-- are the codecs of frames (`src/transport/ethercat_frame.cpp`) and of mailbox messages
-- (`src/transport/coe_mailbox_protocol.cpp`). There are two transports: a simulated network
-- (`src/transport/mock_transport.cpp`) and raw sockets (`src/transport/linux_raw_socket_transport*.cpp`).
--
-- The files.
--   Base          lists, bytes, tables, texts, bits and calls that throw; case splits for proofs
--   Frame         ethercat_frame.cpp: build and parse of a datagram and of an LRW frame
--   Mailbox       the mailbox part of coe_mailbox_protocol.cpp: encodeEscMailbox, decodeEscMailbox,
--                 parseEmergency
--   Sdo           its SDO part: the build and parse functions of uploads and downloads
--   Image         process_image.hpp: bit access
--   Config        eni_esi_models.hpp and config_validator.cpp
--   Mapper        io_mapper.cpp: bind, setOutput, getInput, registerInputCallback,
--                 dispatchInputChanges
--   SlaveState    slave_state.hpp, and decodeAlState of linux_raw_socket_transport_state_dc.cpp
--   Diagnostics   slave_diagnostics.cpp: decode, decide
--   Topology      topology_manager.cpp: the comparison of scans; in Manager the state and refresh
--   Transport     i_transport.hpp as a record of operations over a state type
--   Services      coe_mailbox.cpp and foe_eoe.cpp over such a record
--   Mock          mock_transport.cpp as a state with operations; Mock.Services makes the record of it
--   Clock         of ethercat_master.cpp, the step limits of a clock correction (clampDcStep), in Quality
--                 the monitor of the synchronisation (updateDcSyncQualityLocked), and in Loop the closed
--                 loop over the raw transport (runDcClosedLoopUpdate); Controller is distributed_clock.cpp
--   Raw           linux_raw_socket_transport.hpp and the files of linux_raw_socket_transport*.cpp: the
--                 state and the setters; below it Socket (open, close), Datagram
--                 (sendAndReceiveDatagram), Exchange (exchange), Errors and Retry (error classes, retries),
--                 SyncManagers, Mailbox and Reading (mailboxWriteCoePayload, mailboxReadMatchingCoe),
--                 Transaction, Upload and Download (sdoUpload, sdoDownload, configurePdo), Registers (AL
--                 states, DC times), Frames, Files and Calls (FoE and EoE), Discovery (discoverTopology),
--                 Signals and Mapping (configureProcessImage). Carried and Matching are about the
--                 frames that an exchange sends and takes, Acknowledged is about the segments of a
--                 download. Steps has every change of the state as a
--                 step; Sim is a small simulated network that the runs use
--   Master        ethercat_master.cpp: Log and Options (events, transitions, setters), Wait (the state
--                 transitions), Environment, Startup (configure, start, stop), Recovery, Cycle, Policy,
--                 Calls (mailbox services, updateDistributedClock); Reachable has every operation that
--                 changes the state as a step, Reactions is about the outputs that callbacks set
--
-- State and calls. An object is a record and a member function is a function from the record to the new
-- record and the result; the master holds its transport's state. An out parameter is a result, with its
-- old value an argument where the callee may leave it. A call that throws gives `throws`.
--
-- Bounds. Numbers are unbounded; a value is reduced where the source narrows it or where a counter wraps
-- (`next64`, `next8`). A read past the end of a vector gives what a function `over` says, so that a result
-- which is the same for all of them reads inside. The wait of the master for a state runs as many
-- rounds as the clock, a parameter, allows (`Host.polls`), so it ends with every clock that passes the
-- deadline. A loop of the raw transport that waits by the clock runs one round for each millisecond of its
-- timeout, since each round sleeps one (`read_until`, `frames_until`; `await_eeprom` has 100), and tests the
-- deadline as the source does. `scan` has maxFramesPerCycle rounds. The segments of a download have as
-- much fuel as there are bytes. An upload, a FoE transfer and the scan of the topology, which
-- uploads, may go on as long as a slave does: they take fuel and give `none` when it ends.
--
-- The operating system. `Raw.System` is the interface to sockets, clock and environment over any state of
-- the world; the model of the raw transport is a function of it. `walk` stands for the order in
-- which `std::unordered_set` is walked. Trace output is left out.
--
-- Not modelled: of the master, time stamps and run times, and the call of the closed loop in the cycle
-- (the master here runs on another transport, on which the loop only fails); threads and the mutex (an
-- operation is one step), whatever else a callback does than set outputs by name (which ones is a
-- parameter, `Host.reacts`), the factory of transports, the loaders of files, and the
-- texts that only the examples print. `std::stoull`, `std::hash`, the arithmetic of `double`
-- (`Clock.Controller.Doubles`), the index of a percentile and the environment are parameters.
pub mod Base
pub mod Frame
pub mod Diagnostics
pub mod SlaveState
pub mod Mailbox
pub mod Mapper
pub mod Sdo
pub mod Topology
pub mod Image
pub mod Config
pub mod Transport
pub mod Services
pub mod Mock
pub mod Clock
pub mod Raw
pub mod Master
