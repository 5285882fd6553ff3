-- ===== src/Lib.antt =====
-- A verification library for WireLab, a simulator of a switched network: its switch, the faults
-- that it injects, and the policies that contain anomalous traffic.
--
-- How the parts interact. Clients send Ethernet frames to the switch (src/vswitch.cpp) over UDP. A
-- frame is parsed (src/ethernet_frame.cpp), judged by the switch's frame gate, and, if it passes,
-- teaches the MAC table (src/mac_table.cpp) its sender and is sent to the endpoints of its
-- destination, at once or when it is due. Behind the gate stands the topology controller
-- (src/topology_controller.cpp): a checked star topology (src/topology.cpp) and a fault engine
-- (src/fault_engine.cpp), which decides for each port and link whether a frame is lost, delayed or
-- duplicated. The analysis pipeline (src/analysis_pipeline.cpp) takes one batch of analysed packets
-- after another: anomalies that the detector (src/anomaly_detector.cpp) finds become decisions of
-- the policy engine (src/policy_engine.cpp), and the policy enforcer (src/policy_enforcer.cpp) puts
-- them on the ports as faults with a lease, at whose end it restores the ports. The supervisor
-- (src/switch_supervisor.cpp) closes the loop: it is the gate of a live switch, gives each sender a
-- port of the topology, batches its frames, has them parsed and counted by the packet analyzer
-- (src/packet_analyzer.cpp, with src/packet_batch.cpp) and hands each batch to the pipeline. Beside
-- the switch stands the control plane: a client sends a request as one JSON object, which the
-- protocol (src/control_protocol.cpp) reads and checks, and the control service
-- (src/control_service.cpp) answers it, with a reply and numbered events: it loads a topology, sets,
-- clears and lists faults through the topology controller, shows the metrics and the state of the
-- supervisor, and runs a benchmark in slices. Batches of packets come also from capture files
-- (src/pcap.cpp).
--
-- The files. Each part is a module with the source's records, enumerations and methods under the
-- source's names, in snake case; a method that changes an object takes the object first and returns
-- it with its result. The child modules hold the theorems.
--   Frame            src/ethernet_frame.cpp; Layout and MacText: the round trips
--   MacTable         src/mac_table.cpp; Entries: what the methods do to the entries
--   FaultEngine      src/fault_engine.cpp; Random, Transmission: the two numeric routines; Faults:
--                    configuring faults; Decisions: what is decided of a frame
--   Topology         src/topology.cpp; Shape: the star that a configuration must be; Links: the keys
--                    of links; Create: the check
--   TopologyController  src/topology_controller.cpp; Targets: the names of ports and links in the
--                    fault engine; PortFaults: setting and clearing the fault of a port;
--                    Evaluation: what judging a frame leaves of the faults;
--                    Refusals: what a refused or needless call leaves behind
--   Anomaly          the events of include/wirelab/anomaly_detector.hpp
--   Packet           the packets of include/wirelab/packet_analyzer.hpp: views, and what is analysed
--   PacketParser     parse_packet of src/packet_analyzer.cpp; Bounds: what it reads; Lengths: the
--                    length it notes
--   PacketBatch      src/packet_batch.cpp; Storage: the buffers; Create: filling and reading them
--   Merging, Aggregator, Ranking  PacketAnalysisAggregator of src/packet_analyzer.cpp: the loop that
--                    merges entries of one key, the loop over the packets, and the ranking at its
--                    end. Aggregator/Counts and Learning are about the loop, Ranking/Counting about
--                    the whole, Ranking/Histograms about the merged histograms
--   PacketAnalyzer   CpuPacketAnalyzer of src/packet_analyzer.cpp; Agreement: its two overloads
--   Traffic          the maps that src/anomaly_detector.cpp fills from packets
--   AnomalyDetector  src/anomaly_detector.cpp; Window: which packets count; Storms:
--                    the broadcast storms that are reported
--   AnalysisPipeline src/analysis_pipeline.cpp; Enforcement: its clock and the leases over batches
--   PolicyEngine     src/policy_engine.cpp; Rules: valid rule sets; Hits: decisions and counts
--   PolicyEnforcer   src/policy_enforcer.cpp; Invariant: what ties leases to faults; Enforcing:
--                    applying decisions; Releasing: expiry and release
--   SwitchMetrics    src/switch_metrics.cpp
--   VSwitch          src/vswitch.cpp; Accounts: where the copies of a frame go; Learning: the MAC
--                    table; Deferring: frames that wait, and how long the receive loop does
--   SwitchSupervisor src/switch_supervisor.cpp; Bindings: the ports of senders; Accounts: the frames
--                    noted and analysed; Supervised: the pipeline and the controller; Containment: a
--                    fault on a sender's port
--   TrafficShape     the scenarios of src/traffic_generator.cpp
--   TrafficGenerator its frames, and src/traffic_source.cpp; Totality: its loops;
--                    Checksum: the headers; Serial: batches; Parsing: generated frames in the parser
--   Pcap             the readers of src/pcap.cpp; Memory: reads from the buffer; Captures: what is
--                    read from a file, and the views of its packets
--   Json             the scanner that the readers of src/control_protocol.cpp share; Loops,
--                    Shrinking and Members: the input that its loops use up; Strings, Numbers: the
--                    round trips of strings and numbers
--   ControlProtocol  the messages of include/wirelab/control_protocol.hpp and the checks of a request;
--                    Requests: reading a request, with Shape (what a valid one has) and Shrinking;
--                    Replies: reading a reply; Events: the events and their texts, with Apart (events
--                    in the reader of replies); Printing: requests and replies as text; ReplyTrip,
--                    ParameterTrip and RequestTrip: printed messages in the readers
--   Benchmark        the configuration and result of include/wirelab/benchmark.hpp, and the names
--   ControlService   src/control_service.cpp: its state, and how it answers or rejects; Dispatch: the
--                    requests and the slices of a benchmark; Analysis: the events of an outcome of
--                    the pipeline, with Counting; Numbering: sequence numbers; Answers: what a
--                    request is answered with
--   Prelude          shared types, list and map lemmas, integers, texts, sorting
--   Tests            concrete inputs, and the theorems at them
--
-- The model. A byte string is a list of numbers, a time or duration a signed integer (of
-- nanoseconds; milliseconds where the source has them), and arithmetic of `uint64_t` is written
-- modulo 2 ^ 64. The times at which the fault engine has a frame delivered are signed 64-bit
-- sums, which wrap around; the source bounds neither latency nor jitter, so they can. The other sums
-- of times (the end of a lease, what remains of a wait) are exact integers, which is what the source
-- computes as long as they fit. `expected` is Expected, with ok and
-- unexpected; an exception that is caught becomes none. `std::map` and `std::unordered_map` are
-- association lists; where the source iterates over an unordered one and does not sort, the order
-- of the list stands for the unspecified one. A mutex or an atomic operation makes one step of what
-- it guards. The loops are recursions on the list that they run over, so no fuel is needed, but for
-- two of the traffic generator: filling a payload has one round more than it has bytes, each round
-- fills eight, and folding a checksum has four rounds, of which a sum of ten 16-bit words needs at
-- most three; and for the loops over text and captures. Every round of a loop over JSON, or over the
-- records, blocks or options of a capture, uses up input, so that one round more than the input has
-- bytes is enough. The receive loop of the switch runs over the list of its passes, each with what the
-- socket returned and the clock showed.
--
-- Interfaces. The switch takes the operating system's UDP socket and its frame gate as records of
-- operations on states of any type; nothing is assumed of them. SwitchSupervisor.gate is the
-- supervisor as such a gate; it takes the control server and the packet analyzer as records in
-- turn. A read through a pointer is a read of a list, and none outside of it. Where the packet
-- analyzer is asked to count the frames that it is given, this is a named hypothesis; cpu_analyzer
-- is an instance. The commands of a control server may do anything to the pipeline and the
-- controller; they do set the faults of ports that have a lease. What is stated of both over calls
-- of the supervisor is therefore about one without a control server. The control service takes the
-- benchmark runs as a record of operations on runs of any type, and what surrounds it as another:
-- the metrics and the supervision snapshot of the moment, and the reader of topology files. The
-- text of a floating-point number in an event is a function that is given.
--
-- Not modelled: the control server and its clients, sessions, the reader of topology files, which
-- goes through a YAML library, and the foreign function interface, which wrap what is modelled in
-- sockets, threads, files and pointers; writing captures; the loop that a benchmark runs; device
-- code, the graphical interface and the programs' main functions; logging, and the operating
-- system's sockets, devices and threads.
pub mod Prelude
pub mod Frame
pub mod FaultEngine
pub mod MacTable
pub mod Topology
pub mod TopologyController
pub mod Anomaly
pub mod PolicyEngine
pub mod PolicyEnforcer
pub mod Packet
pub mod PacketParser
pub mod Merging
pub mod Aggregator
pub mod PacketBatch
pub mod Ranking
pub mod PacketAnalyzer
pub mod Traffic
pub mod AnomalyDetector
pub mod AnalysisPipeline
pub mod SwitchMetrics
pub mod VSwitch
pub mod SwitchSupervisor
pub mod TrafficShape
pub mod TrafficGenerator
pub mod Json
pub mod Pcap
pub mod Benchmark
pub mod ControlProtocol
pub mod ControlService
mod Tests
