-- ===== src/Benchmark.antt =====
-- The configuration and result of include/wirelab/benchmark.hpp, and the names of src/benchmark.cpp.
use packet_switch.TrafficShape.{TrafficGeneratorConfig, TrafficScenario}
use packet_switch.Prelude.Texts.{Text, text_discrete, ascii, text_eq}
use packet_switch.Prelude.{ℕ, ◌≡◌, Expected, if◌then◌else◌, ok, refl, unexpected}

pub data BenchmarkError : Type 0 where
  unknown_scenario unknown_backend backend_unavailable invalid_configuration : BenchmarkError

pub record BenchmarkConfig : Type 0 where
  pub traffic : TrafficGeneratorConfig
  pub packet_count : ℕ
  pub batch_size : ℕ
  pub backend : Text
  pub generator : Text

pub record AnalyzerTiming : Type 0 where
  pub host_to_device_ns : ℕ
  pub kernel_ns : ℕ
  pub device_to_host_ns : ℕ
  pub transfer_inclusive_ns : ℕ
  pub queue_wait_ns : ℕ

-- The rates are of the parameter that stands for `double`.
pub record BenchmarkResult (Real : Type 0) : Type 0 where
  pub backend : Text
  pub scenario : Text
  pub seed : ℕ
  pub frame_size : ℕ
  pub batch_size : ℕ
  pub total_packets : ℕ
  pub completed_packets : ℕ
  pub received_packets : ℕ
  pub received_bytes : ℕ
  pub malformed_packets : ℕ
  pub broadcast_packets : ℕ
  pub unknown_unicast_packets : ℕ
  pub known_unicast_packets : ℕ
  pub elapsed_ns : ℕ
  pub packets_per_second : Real
  pub goodput_bits_per_second : Real
  pub loss_percentage : Real
  pub batch_analysis_latency_p50_ns : ℕ
  pub batch_analysis_latency_p95_ns : ℕ
  pub batch_analysis_latency_p99_ns : ℕ
  pub timing : AnalyzerTiming

-- `TrafficGeneratorConfig{}`, of include/wirelab/traffic_generator.hpp.
abbrev pub default_traffic : TrafficGeneratorConfig
default_traffic = record {
  scenario = TrafficScenario.mixed;
  seed = 1;
  frame_size = 64;
  host_count = 16;
}

abbrev pub benchmark_error_name : BenchmarkError → Text
benchmark_error_name unknown_scenario = ascii "unknown traffic scenario"
benchmark_error_name unknown_backend = ascii "unknown benchmark backend"
benchmark_error_name backend_unavailable = ascii "benchmark backend is unavailable"
benchmark_error_name invalid_configuration = ascii "invalid benchmark configuration"

abbrev pub scenario_name : TrafficScenario → Text
scenario_name TrafficScenario.known_unicast = ascii "known-unicast"
scenario_name TrafficScenario.broadcast = ascii "broadcast"
scenario_name TrafficScenario.unknown_unicast = ascii "unknown-unicast"
scenario_name TrafficScenario.mixed = ascii "mixed-traffic"
scenario_name TrafficScenario.udp_flood = ascii "udp-flood"
scenario_name TrafficScenario.port_scan = ascii "port-scan"
scenario_name TrafficScenario.broadcast_storm = ascii "broadcast-storm"

unfoldable pub traffic_scenario_from_string : Text → Expected TrafficScenario BenchmarkError
unfolding text_discrete
traffic_scenario_from_string name =
    if text_eq name (ascii "known-unicast")
    then ok TrafficScenario.known_unicast
    else if text_eq name (ascii "broadcast")
    then ok TrafficScenario.broadcast
    else if text_eq name (ascii "unknown-unicast")
    then ok TrafficScenario.unknown_unicast
    else if text_eq name (ascii "mixed-traffic")
    then ok TrafficScenario.mixed
    else if text_eq name (ascii "udp-flood")
    then ok TrafficScenario.udp_flood
    else if text_eq name (ascii "port-scan")
    then ok TrafficScenario.port_scan
    else if text_eq name (ascii "broadcast-storm")
    then ok TrafficScenario.broadcast_storm
    else unexpected unknown_scenario

pub traffic_scenario_from_string-scenario_name :
    (s : TrafficScenario) → traffic_scenario_from_string (scenario_name s) ≡ ok s
unfolding traffic_scenario_from_string
traffic_scenario_from_string-scenario_name TrafficScenario.known_unicast = refl
traffic_scenario_from_string-scenario_name TrafficScenario.broadcast = refl
traffic_scenario_from_string-scenario_name TrafficScenario.unknown_unicast = refl
traffic_scenario_from_string-scenario_name TrafficScenario.mixed = refl
traffic_scenario_from_string-scenario_name TrafficScenario.udp_flood = refl
traffic_scenario_from_string-scenario_name TrafficScenario.port_scan = refl
traffic_scenario_from_string-scenario_name TrafficScenario.broadcast_storm = refl
