-- ===== src/ControlProtocol/ParameterTrip.antt =====
-- Printed parameters in the parser of requests.
use packet_switch.Json.{member_round}
use packet_switch.Json.Loops.{Runs, leaves, stays}
use packet_switch.Json.Members.{follow-ok, member_round-comma, member_round-brace}
use packet_switch.Json.Strings.{json_string, read_string-json_string}
use packet_switch.Json.Numbers.{read_uint-comma, read_uint-brace, read_bool-bool_text}
use packet_switch.ControlProtocol.{
  ControlRequest, BenchmarkParameters, AnalyzerBackend, ControlCommand, command_name, backend_name,
  load_topology, cpu, get_switch_state, get_active_faults, cuda, get_supervision_state,
  start_benchmark, stop_run, set_port_fault, clear_port_fault, set_link_fault, clear_link_fault,
}
use packet_switch.ControlProtocol.Requests.{
  RequestScan, to_nanoseconds, backend_named, read_backend, read_command, command_named,
  read_milliseconds, parameter_member, no_parameters, known,
}
use packet_switch.Prelude.Int.{ℤ, pos, ◌≤ℤ◌, ◌<ℤ◌, negsuc}
use packet_switch.Prelude.{
  true, Bool, ℕ, ◌<◌, false, ◌/◌, ◌^◌, ◌*◌, ◌≡◌, ◌∷◌, ◌++◌, some, arith, ok, ◌∙◌, ltb, refl, ◌-◌,
  ap,
}
use packet_switch.FaultEngine.{FaultConfiguration}
use packet_switch.ControlProtocol.Printing.{
  configuration_members, milliseconds, benchmark_members, signed_decimal,
}
use packet_switch.Prelude.Texts.{Text, ascii}

command_named-command_name : (c : ControlCommand) → command_named (command_name c) ≡ some c
unfolding command_named
command_named-command_name load_topology = refl
command_named-command_name get_switch_state = refl
command_named-command_name get_active_faults = refl
command_named-command_name get_supervision_state = refl
command_named-command_name start_benchmark = refl
command_named-command_name stop_run = refl
command_named-command_name set_port_fault = refl
command_named-command_name clear_port_fault = refl
command_named-command_name set_link_fault = refl
command_named-command_name clear_link_fault = refl

pub read_command-command_name :
    (c : ControlCommand) (rest : Text)
    → read_command (json_string (command_name c) ++ rest) ≡ ok (c, rest)
unfolding read_command
read_command-command_name c rest =
    follow-ok _ (read_string-json_string (command_name c) rest)
    ∙ ap (λ o. known o rest) (command_named-command_name c)

backend_named-backend_name : (b : AnalyzerBackend) → backend_named (backend_name b) ≡ some b
unfolding backend_named
backend_named-backend_name cpu = refl
backend_named-backend_name cuda = refl

read_backend-backend_name :
    (b : AnalyzerBackend) (rest : Text)
    → read_backend (json_string (backend_name b) ++ rest) ≡ ok (b, rest)
unfolding read_backend
read_backend-backend_name b rest =
    follow-ok _ (read_string-json_string (backend_name b) rest)
    ∙ ap (λ o. known o rest) (backend_named-backend_name b)

-- A duration without its fraction of a millisecond.
abbrev pub whole_milliseconds : ℤ → ℤ
whole_milliseconds (pos n) = pos (n / 1000000 * 1000000)
whole_milliseconds (negsuc n) = negsuc n

abbrev pub IsDuration : ℤ → Type 0
IsDuration z = (pos 0 ≤ℤ z) × (z <ℤ pos (2 ^ 63))

to_nanoseconds-pos : (n : ℕ) → n * 1000000 < 2 ^ 63 → to_nanoseconds n ≡ pos (n * 1000000)
unfolding to_nanoseconds
to_nanoseconds-pos n h = ground arith

read_milliseconds-signed_decimal :
    (z : ℤ) (rest : Text)
    → IsDuration z
    → read_milliseconds (signed_decimal (milliseconds z) ++ b',' ∷ rest)
      ≡ ok (whole_milliseconds z, b',' ∷ rest)
unfolding read_milliseconds milliseconds signed_decimal
read_milliseconds-signed_decimal (pos n) rest h =
    let small : ltb (2 ^ 63 - 1) (n / 1000000) ≡ false = ground arith in
    rw
      (
        read_uint-comma (2 ^ 64 - 1) (n / 1000000) rest (omega arith) (omega arith),
        read_milliseconds,
      )
      (rw (small, to_nanoseconds-pos (n / 1000000) (omega arith)) refl)
read_milliseconds-signed_decimal (negsuc n) rest h = absurd (omega arith)

pub record IsConfiguration (c : FaultConfiguration) : Type 0 where
  pub latency_range : IsDuration c.latency
  pub jitter_range : IsDuration c.jitter
  pub loss_range : c.loss_basis_points < 2 ^ 32
  pub duplication_range : c.duplication_basis_points < 2 ^ 32
  pub bandwidth_range : c.bandwidth_bits_per_second < 2 ^ 64

pub record IsBenchmark (b : BenchmarkParameters) : Type 0 where
  pub batch_size_range : b.batch_size < 2 ^ 32
  pub duration_range : b.duration_seconds < 2 ^ 32
  pub seed_range : b.seed < 2 ^ 64
  pub packet_count_range : b.packet_count < 2 ^ 64
  pub frame_size_range : b.frame_size < 2 ^ 32

abbrev pub in_milliseconds : FaultConfiguration → FaultConfiguration
in_milliseconds c = record c {
  latency = whole_milliseconds c.latency;
  jitter = whole_milliseconds c.jitter;
}

-- What is read when the parameters follow: the request so far, and which targets.
abbrev pub reading : ControlRequest → Bool → Bool → RequestScan
reading r port link = record {
  request = r;
  parameters = record no_parameters {
    port_id = port;
    first_endpoint = link;
    second_endpoint = link;
  };
  has_api_version = true;
  has_request_id = true;
  has_command = true;
  has_topology_revision = true;
  has_parameters = false;
}

abbrev pub with_configuration : ControlRequest → FaultConfiguration → ControlRequest
with_configuration r c = record r { fault = record r.fault { configuration = c } }

abbrev pub configured : RequestScan → RequestScan
configured s = record s {
  parameters = record s.parameters {
    latency = true;
    jitter = true;
    loss = true;
    duplication = true;
    bandwidth = true;
    blackhole = true;
    isolated = true;
  };
}

pub configuration_run :
    (r : ControlRequest) (port link : Bool) (c : FaultConfiguration) (rest : Text)
    → IsConfiguration c
    → Runs
        (member_round parameter_member)
        (reading r port link)
        (configuration_members c (b'}' ∷ rest))
        (configured (reading (with_configuration r (in_milliseconds c)) port link))
        rest
unfolding json_string parameter_member configuration_members
configuration_run r port link c rest v =
    stays
      (member_round-comma parameter_member _ (reading r port link) _ _ _ _
        (read_string-json_string (ascii "latency_ms") _)
        (follow-ok _ (read_milliseconds-signed_decimal c.latency _ v.latency_range)))
      (stays
        (member_round-comma parameter_member _ _ _ _ _ _
          (read_string-json_string (ascii "jitter_ms") _)
          (follow-ok _ (read_milliseconds-signed_decimal c.jitter _ v.jitter_range)))
        (stays
          (member_round-comma parameter_member _ _ _ _ _ _
            (read_string-json_string (ascii "loss_basis_points") _)
            (follow-ok _
              (read_uint-comma (2 ^ 32 - 1) c.loss_basis_points _ (omega arith) (omega arith))))
          (stays
            (member_round-comma parameter_member _ _ _ _ _ _
              (read_string-json_string (ascii "duplication_basis_points") _)
              (follow-ok _ (
                read_uint-comma (2 ^ 32 - 1) c.duplication_basis_points _ (omega arith)
                  (omega arith))))
            (stays
              (member_round-comma parameter_member _ _ _ _ _ _
                (read_string-json_string (ascii "bandwidth_bits_per_second") _)
                (follow-ok _ (
                  read_uint-comma (2 ^ 64 - 1) c.bandwidth_bits_per_second _ (omega arith)
                    (omega arith))))
              (stays
                (member_round-comma parameter_member _ _ _ _ _ _
                  (read_string-json_string (ascii "blackhole") _)
                  (follow-ok _ (read_bool-bool_text c.blackhole _)))
                (leaves (
                  member_round-brace parameter_member _ _ _ _ _ _
                    (read_string-json_string (ascii "isolated") _)
                    (follow-ok _ (read_bool-bool_text c.isolated _)))))))))

abbrev pub benchmarked : RequestScan → RequestScan
benchmarked s = record s {
  parameters = record s.parameters {
    scenario = true;
    backend = true;
    generator = true;
    batch_size = true;
    duration_seconds = true;
    seed = true;
    packet_count = true;
    frame_size = true;
  };
}

pub benchmark_run :
    (r : ControlRequest) (b : BenchmarkParameters) (rest : Text)
    → IsBenchmark b
    → Runs
        (member_round parameter_member)
        (reading r false false)
        (benchmark_members b (b'}' ∷ rest))
        (benchmarked (reading (record r { benchmark = b }) false false))
        rest
unfolding json_string parameter_member benchmark_members
benchmark_run r b rest v =
    stays
      (member_round-comma parameter_member _ (reading r false false) _ _ _ _
        (read_string-json_string (ascii "scenario") _)
        (follow-ok _ (read_string-json_string b.scenario _)))
      (stays
        (member_round-comma parameter_member _ _ _ _ _ _
          (read_string-json_string (ascii "backend") _)
          (follow-ok _ (read_backend-backend_name b.backend _)))
        (stays
          (member_round-comma parameter_member _ _ _ _ _ _
            (read_string-json_string (ascii "generator") _)
            (follow-ok _ (read_string-json_string b.generator _)))
          (stays
            (member_round-comma parameter_member _ _ _ _ _ _
              (read_string-json_string (ascii "batch_size") _)
              (follow-ok _
                (read_uint-comma (2 ^ 32 - 1) b.batch_size _ (omega arith) (omega arith))))
            (stays
              (member_round-comma parameter_member _ _ _ _ _ _
                (read_string-json_string (ascii "duration_seconds") _)
                (follow-ok _
                  (read_uint-comma (2 ^ 32 - 1) b.duration_seconds _ (omega arith) (omega arith))))
              (stays
                (member_round-comma parameter_member _ _ _ _ _ _
                  (read_string-json_string (ascii "seed") _)
                  (follow-ok _ (read_uint-comma (2 ^ 64 - 1) b.seed _ (omega arith) (omega arith))))
                (stays
                  (member_round-comma parameter_member _ _ _ _ _ _
                    (read_string-json_string (ascii "packets") _)
                    (follow-ok _
                      (read_uint-comma (2 ^ 64 - 1) b.packet_count _ (omega arith) (omega arith))))
                  (leaves (
                    member_round-brace parameter_member _ _ _ _ _ _
                      (read_string-json_string (ascii "frame_size") _)
                      (follow-ok _ (
                        read_uint-brace (2 ^ 32 - 1) b.frame_size _ (omega arith)
                          (omega arith)))))))))))
