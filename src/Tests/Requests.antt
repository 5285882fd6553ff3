-- ===== src/Tests/Requests.antt =====
-- Concrete requests, a control service that serves them, and a capture.
use packet_switch.ControlProtocol.{
  ControlRequest, ControlReply, empty_request, set_port_fault, empty_reply, no_fault_target,
}
use packet_switch.Prelude.Texts.{Text, ascii}
use packet_switch.ControlProtocol.Events.Apart.{ControlEvent, fault_state}
use packet_switch.Pcap.{from_bytes, read_u32, PcapCapture}
use packet_switch.ControlService.{BenchmarkRuns, Surroundings, ControlService}
use packet_switch.AnalysisPipeline.{AnalysisOutcome}
use packet_switch.Tests.{flood, lossy_fault, decisions, lab}
use packet_switch.SwitchMetrics.{no_metrics}
use packet_switch.Prelude.{◌∷◌, ◌≡◌, ℕ, [], some, none, ok, refl, unexpected, false, ◌+◌, true, leb}

abbrev pub fault_request : ControlRequest
fault_request = record empty_request {
  request_id = ascii "r\"1\"";
  command = set_port_fault;
  topology_revision = 1;
  fault = record no_fault_target { port_id = ascii "a"; configuration = lossy_fault };
}

abbrev pub state_text : Text
state_text =
    ascii
      "{\"api_version\":1,\"request_id\":\"r2\",\"command\":\"get_switch_state\",\"topology_revision\":1}"

abbrev pub rejection : ControlReply
rejection = record empty_reply { request_id = ascii "r3"; error = ascii "stale\n" }

-- A run of ten packets, by the number of packets that are done.
abbrev pub ten_packets : BenchmarkRuns ℕ ℕ
ten_packets = record {
  create = λ config. ok 0;
  advance = λ run max_packets. (run + 5, 5);
  finished = λ run. leb 10 run;
  completed_packets = λ run. run;
  total_packets = λ run. 10;
  result = λ run. run;
  elapsed_ns = λ r. r;
}

abbrev pub around : Surroundings
around = record {
  metrics = no_metrics;
  supervision_source = none;
  read_yaml = λ path. unexpected (ascii "no such file");
}

abbrev pub service : ControlService ℕ
service = record {
  topology_revision = 0;
  topology_controller = some lab;
  benchmark_run = some 5;
  benchmark_operation_id = ascii "benchmark-1";
  benchmark_deadline_ns = 0;
  next_benchmark_id = 2;
  next_event_sequence = 7;
}

abbrev pub flood_outcome : AnalysisOutcome
flood_outcome = record {
  anomalies = flood ∷ [];
  decisions = decisions;
  released_actions = [];
  enforced_actions = [];
  timestamp_ns = 500;
}

abbrev pub fault_event : ControlEvent ℕ
fault_event = fault_state (record {
  stamp = record { api_version = 1; event_sequence = 3; topology_revision = 1 };
  first_endpoint = ascii "a";
  second_endpoint = [];
  configuration = lossy_fault;
  active = true;
})

-- A classic capture of one packet of three bytes.
abbrev pub capture_bytes : Text
capture_bytes =
    0xD4 ∷ 0xC3 ∷ 0xB2 ∷ 0xA1 ∷ 2 ∷ 0 ∷ 4 ∷ 0 ∷ 0 ∷ 0 ∷ 0 ∷ 0 ∷ 0 ∷ 0 ∷ 0 ∷ 0 ∷ 0 ∷ 0 ∷ 4 ∷ 0 ∷ 1
    ∷ 0 ∷ 0 ∷ 0 ∷ 9 ∷ 0 ∷ 0 ∷ 0 ∷ 5 ∷ 0 ∷ 0 ∷ 0 ∷ 3 ∷ 0 ∷ 0 ∷ 0 ∷ 3 ∷ 0 ∷ 0 ∷ 0 ∷ 10 ∷ 11 ∷ 12 ∷ []

abbrev pub capture : PcapCapture
capture = record {
  bytes = capture_bytes;
  packets =
      record { timestamp_ns = 9000005000; offset = 40; captured_length = 3; original_length = 3 }
      ∷ [];
  link_type = 1;
  snaplen = 262144;
  nanosecond_resolution = false;
  pcapng = false;
}

-- The reader finds that packet.
reads_capture : from_bytes capture_bytes ≡ some (ok capture)
unfolding from_bytes read_u32
reads_capture = refl
