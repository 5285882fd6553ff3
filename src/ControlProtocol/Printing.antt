-- ===== src/ControlProtocol/Printing.antt =====
-- `to_json` of requests and replies.
use packet_switch.Prelude.Int.{ℤ, pos, negsuc, sub_ℕ}
use packet_switch.Prelude.Decimal.{decimal}
use packet_switch.Json.Strings.{json_string}
use packet_switch.Json.Numbers.{bool_text}
use packet_switch.ControlProtocol.{
  ControlReply, ControlRequest, BenchmarkParameters, ControlCommand, FaultParameters, command_name,
  backend_name, load_topology, start_benchmark, set_port_fault, set_link_fault, clear_port_fault,
  clear_link_fault, get_switch_state, get_active_faults, get_supervision_state, stop_run,
}
use packet_switch.FaultEngine.{FaultConfiguration}
use packet_switch.Prelude.{◌/◌, ◌∷◌, ◌++◌, suc, if◌then◌else◌}
use packet_switch.Prelude.Texts.{Text, ascii}

unfoldable pub reply_to_json : ControlReply → Text
reply_to_json r =
    ascii "{\"api_version\":"
    ++ (decimal r.api_version
        ++ (ascii ",\"request_id\":"
            ++ (json_string r.request_id
                ++ (ascii ",\"accepted\":"
                    ++ (bool_text r.accepted
                        ++ (ascii ",\"topology_revision\":"
                            ++ (decimal r.topology_revision
                                ++ (if r.accepted
                                    then ascii ",\"operation_id\":"
                                      ++ (json_string r.operation_id ++ ascii "}")
                                    else ascii ",\"error\":"
                                      ++ (json_string r.error ++ ascii "}")))))))))

-- The text of a signed number, and `duration_cast<milliseconds>`, which rounds towards zero.
unfoldable pub signed_decimal : ℤ → Text
signed_decimal (pos n) = decimal n
signed_decimal (negsuc n) = b'-' ∷ decimal (suc n)

unfoldable pub milliseconds : ℤ → ℤ
milliseconds (pos n) = pos (n / 1000000)
milliseconds (negsuc n) = sub_ℕ 0 (suc n / 1000000)

-- The members of a fault configuration, in a request and in an event.
unfoldable pub configuration_members : FaultConfiguration → Text → Text
configuration_members c rest =
    ascii "\"latency_ms\":"
    ++ (signed_decimal (milliseconds c.latency)
        ++ (ascii ",\"jitter_ms\":"
            ++ (signed_decimal (milliseconds c.jitter)
                ++ (ascii ",\"loss_basis_points\":"
                    ++ (decimal c.loss_basis_points
                        ++ (ascii ",\"duplication_basis_points\":"
                            ++ (decimal c.duplication_basis_points
                                ++ (ascii ",\"bandwidth_bits_per_second\":"
                                    ++ (decimal c.bandwidth_bits_per_second
                                        ++ (ascii ",\"blackhole\":"
                                            ++ (bool_text c.blackhole
                                                ++ (ascii ",\"isolated\":"
                                                    ++ (bool_text c.isolated ++ rest)))))))))))))

unfoldable pub benchmark_members : BenchmarkParameters → Text → Text
benchmark_members b rest =
    ascii "\"scenario\":"
    ++ (json_string b.scenario
        ++ (ascii ",\"backend\":"
            ++ (json_string (backend_name b.backend)
                ++ (ascii ",\"generator\":"
                    ++ (json_string b.generator
                        ++ (ascii ",\"batch_size\":"
                            ++ (decimal b.batch_size
                                ++ (ascii ",\"duration_seconds\":"
                                    ++ (decimal b.duration_seconds
                                        ++ (ascii ",\"seed\":"
                                            ++ (decimal b.seed
                                                ++ (ascii ",\"packets\":"
                                                    ++ (decimal b.packet_count
                                                        ++ (ascii ",\"frame_size\":"
                                                            ++ (decimal b.frame_size
                                                            ++ rest)))))))))))))))

unfoldable pub port_member : FaultParameters → Text → Text
port_member f rest = ascii "\"port_id\":" ++ (json_string f.port_id ++ rest)

unfoldable pub link_members : FaultParameters → Text → Text
link_members f rest =
    ascii "\"first_endpoint\":"
    ++ (json_string f.first_endpoint
        ++ (ascii ",\"second_endpoint\":" ++ (json_string f.second_endpoint ++ rest)))

abbrev pub object_end : Text
object_end = ascii "}}"

-- The text behind the revision.
unfoldable pub parameters_member : ControlCommand → ControlRequest → Text
unfolding benchmark_members port_member link_members configuration_members
parameters_member load_topology r =
    ascii ",\"parameters\":{\"topology_path\":" ++ (json_string r.topology_path ++ object_end)
parameters_member start_benchmark r =
    ascii ",\"parameters\":{" ++ benchmark_members r.benchmark object_end
parameters_member set_port_fault r =
    ascii ",\"parameters\":{"
    ++ port_member r.fault (ascii "," ++ configuration_members r.fault.configuration object_end)
parameters_member set_link_fault r =
    ascii ",\"parameters\":{"
    ++ link_members r.fault (ascii "," ++ configuration_members r.fault.configuration object_end)
parameters_member clear_port_fault r = ascii ",\"parameters\":{" ++ port_member r.fault object_end
parameters_member clear_link_fault r = ascii ",\"parameters\":{" ++ link_members r.fault object_end
parameters_member get_switch_state r = ascii "}"
parameters_member get_active_faults r = ascii "}"
parameters_member get_supervision_state r = ascii "}"
parameters_member stop_run r = ascii "}"

unfoldable pub request_to_json : ControlRequest → Text
unfolding parameters_member
request_to_json r =
    ascii "{\"api_version\":"
    ++ (decimal r.api_version
        ++ (ascii ",\"request_id\":"
            ++ (json_string r.request_id
                ++ (ascii ",\"command\":"
                    ++ (json_string (command_name r.command)
                        ++ (ascii ",\"topology_revision\":"
                            ++ (decimal r.topology_revision ++ parameters_member r.command r)))))))
