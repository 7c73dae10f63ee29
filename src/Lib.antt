-- ===== src/Lib.antt =====
-- Verification of avdecc-lib, an IEEE 1722.1 (AVDECC) controller library in C++: the parts of
-- controller/lib that keep state and the command matching of controller/app/cmdline, as functions on
-- that state, with the theorems about them.
--
-- The program. A controller finds end stations on a network by ADP messages, reads their
-- descriptors and sends them AECP and ACMP commands. One thread of the library serves three
-- events: a timer, a frame from the network, and a command that the application put into a pipe.
-- Notifications and log lines go through ring buffers to a thread that calls the application.
-- An application may wait for the response to a command.
--
-- The files, and the source each one models (paths from the repository's root):
--   Timer        controller/lib/src/timer.{h,cpp}: start, stop, timeout.
--   Inflight     controller/lib/src/inflight.h: a command that waits for its response.
--   Output       the calls of send_frame, post_notification_msg and post_log_msg as a trace,
--                with the constants of controller/lib/include/enumeration.h.
--   Ring         controller/lib/src/notification.{h,cpp}, log.{h,cpp} and the dispatch loop of
--                linux/notification_imp.cpp.
--   Aecp         controller/lib/src/aecp_controller_state_machine.{h,cpp} and operation.h. Each
--                method has the name of the source; tx_cmd, state_timeout and tick are cut into
--                their branches and loop bodies.
--   Acmp         controller/lib/src/acmp_controller_state_machine.{h,cpp} and the table of
--                time-outs of util_imp.cpp.
--   Adp          controller/lib/src/adp_discovery_state_machine.{h,cpp}.
--   EndStation   controller/lib/src/end_station_imp.{h,cpp}: the background reads (Requests), what
--                a descriptor leads to (Descriptors) and proc_read_desc_resp (Read).
--   Config       controller/lib/src/configuration_descriptor_imp.cpp: the descriptor vectors.
--   Descriptor   controller/lib/src/*_descriptor_imp.cpp of the classes that exchange commands, with
--                the default methods of descriptor_base_imp.cpp: how a response is read and handed
--                to a state machine (proc_*), and what a command queues (send_*). Station has the send
--                methods of end_station_imp.cpp.
--   Respond      controller/lib/src/end_station_imp.cpp: proc_rcvd_aem_resp, proc_rcvd_acmp_resp and
--                proc_rcvd_aecp_aa_resp over the descriptor objects of Config. Interface makes them
--                the interface that Controller takes.
--   Util         controller/lib/src/util_imp.cpp: the conversions of MAC addresses, the tables of
--                names (Names) and their look-up in both directions.
--   Controller   controller/lib/src/controller_imp.cpp: rx_packet_event, tx_packet_event and
--                time_tick_event over the three state machines and the end stations.
--   WaitMgr      controller/lib/src/cmd_wait_mgr.{h,cpp}.
--   System       controller/lib/src/linux/system_layer2_multithreaded_callback.cpp: the handlers of
--                the library thread and the application's calls, as steps of two threads; a handler is one
--                step. The controller is an interface of operations (System/Interface).
--   Cli          controller/app/cmdline/src/cli_argument, cli_command_format and cli_command (Argument,
--                Format, Command, Help): how the words of a command line are matched. Tree is what
--                cmd_line_commands_init of cmd_line.cpp builds.
--   Prelude      Boolean tests, vectors as lists, unsigned words.
--
-- Conventions. A method is a function from the state to the state; out-parameters and return
-- values are components of its result. A handler reads the clock once: the reading is its argument
-- `now`, in milliseconds, and a time stamp is stored as a uint32_t. uint16_t and uint32_t counters
-- wrap. A trace has the newest element first. A notification id is a pointer: here a number. A loop
-- over a vector that shrinks meanwhile runs on fuel, the length of the vector at the start; as the
-- index grows by one each round and the vector does not grow, that is enough. The loop of
-- cli_command_format::run_command runs on one more than its arguments and words, as each round takes
-- one of them. Where a failed send or write ends in an assertion, the model goes on as a build
-- without assertions does. One assertion is kept: the constructor of adp calls proc_adpdu inside it,
-- and the model makes this call, as a build with assertions does. The build is the Linux one.
--
-- Parameters. The library jdksavdecc-c (a git submodule, not in the repository) reads and writes
-- frames: each module has a record of the accessors it uses, over an abstract type of frames, and
-- a record of the laws it relies on, such as that a sequence id is read back. Whether the network
-- interface accepts a frame is a function of the frame. atoi, strtoull and strtoul are parameters
-- of Cli, std::transform with ::toupper of Util, and std::sort of Config. What an end station
-- does with a response of its own is an interface of Controller, which Respond implements; a call
-- through a null pointer is none there, and has no place in the interface.
--
-- Not modelled. The text of log lines and messages; the pcap and socket code of
-- net_interface_imp; threads and semaphores below the level of System, an application thread that
-- comes in while a handler runs, and what the two threads promise each other over the whole
-- controller; the methods of the descriptor classes that only return a field; in the command-line
-- application, the actions of the commands, which print and call the library, and the printing of
-- the help; the OS X and Windows variants, which repeat the Linux code.
pub mod Prelude
pub mod Timer
pub mod Inflight
pub mod Output
pub mod Ring
pub mod Aecp
pub mod Acmp
pub mod Adp
pub mod EndStation
pub mod Config
pub mod Descriptor
pub mod Respond
pub mod Util
pub mod Controller
pub mod WaitMgr
pub mod System
pub mod Cli
