-- ===== src/Tests/Control.antt =====
-- Requests, replies, events, the control service and captures at concrete inputs.
use packet_switch.Prelude.{◌≡◌, ℕ, ◌++◌, ok, if◌then◌else◌, unexpected, arith, leb, [], refl}
use packet_switch.ControlProtocol.Requests.{
  no_members, read_command, request_member, parameter_member,
}
use packet_switch.Pcap.Memory.{Holds, IsCapture}
use packet_switch.Pcap.Captures.{from_bytes-Holds, view-IsView}
use packet_switch.Json.{
  read_members, read_uint, starts_with_digit, repeat, read_string, member_round, invalid_field,
  read_character, read_characters,
}
use packet_switch.TopologyController
use packet_switch.TopologyController.{load}
use packet_switch.Prelude.Texts.{ascii, Text}
use packet_switch.Tests.Requests.{
  capture_bytes, fault_request, rejection, capture, service, ten_packets, around, flood_outcome,
  fault_event, state_text,
}
use packet_switch.ControlService.Dispatch.{dispatch, advance_benchmark}
use packet_switch.Packet.{IsView}
use packet_switch.ControlService.Analysis.Counting.{
  IsSlice, advance_benchmark-IsSlice, analysis_stamps, analysis_events-AreNumbered,
}
use packet_switch.Prelude.Decimal.{decimal}
use packet_switch.ControlProtocol.Replies.{control_reply_from_json}
use packet_switch.ControlProtocol.Requests.Shape.{control_request_from_json}
use packet_switch.Pcap.{from_bytes, view}
use packet_switch.ControlService.Numbering.{AreNumbered}
use packet_switch.Json.Strings.{json_string, read_string-json_string}
use packet_switch.ControlProtocol.Printing.{request_to_json, reply_to_json}
use packet_switch.ControlService.Answers.{
  IsAnswer, request_id_of, dispatch-IsAnswer, dispatch_accepted,
}
use packet_switch.ControlService.{current_topology_revision}
use packet_switch.ControlProtocol.{ControlRequest, validate}
use packet_switch.ControlProtocol.Events.Apart.{
  event_to_json, control_reply_from_json-event_to_json,
}
use packet_switch.ControlService.Analysis.{analysis_events}
use packet_switch.ControlProtocol.ReplyTrip.{control_reply_from_json-reply_to_json}
use packet_switch.Json.Numbers.{read_uint-decimal}
use packet_switch.ControlProtocol.Requests.Shrinking.{read_members_fuel}

control_reply_from_json-reply_to_json_example :
    let r = rejection in
    control_reply_from_json (reply_to_json r)
    ≡ ok (if r.accepted then record r { error = [] } else record r { operation_id = [] })
control_reply_from_json-reply_to_json_example =
    control_reply_from_json-reply_to_json rejection (omega arith) (omega arith)

control_reply_from_json-event_to_json_example :
    let json_number : ℕ → Text = decimal in
    let e = fault_event in
    control_reply_from_json (event_to_json json_number e) ≡ unexpected invalid_field
control_reply_from_json-event_to_json_example =
    control_reply_from_json-event_to_json decimal fault_event

read_members_fuel_example :
    let fuel : ℕ = 12 in
    let s = no_members in
    let t = ascii "\"seed\":1}" in
    (repeat (member_round request_member) fuel s t ≡ read_members request_member s t)
    × (repeat (member_round parameter_member) fuel s t ≡ read_members parameter_member s t)
    × (repeat read_character fuel [] t ≡ read_characters t)
read_members_fuel_example = read_members_fuel 12 no_members (ascii "\"seed\":1}") (omega arith)

read_string-json_string_example :
    let t = ascii "a\"b\n" in
    let rest = ascii "}" in read_string (json_string t ++ rest) ≡ ok (t, rest)
read_string-json_string_example = read_string-json_string (ascii "a\"b\n") (ascii "}")

read_uint-decimal_example :
    let largest : ℕ = 255 in
    let n : ℕ = 300 in
    let rest = ascii "}" in
    read_uint largest (decimal n ++ rest)
    ≡ (if leb n largest then ok (n, rest) else unexpected invalid_field)
unfolding starts_with_digit
read_uint-decimal_example = read_uint-decimal 255 300 (ascii "}") (omega arith) refl

dispatch-IsAnswer_example :
    let runs = ten_packets in
    let w = around in
    let s = service in
    let json = request_to_json fault_request in
    IsAnswer s (request_id_of (control_request_from_json json)) (dispatch runs w s json)
dispatch-IsAnswer_example =
    dispatch-IsAnswer ten_packets around service (request_to_json fault_request)

dispatch_accepted_example :
    let runs = ten_packets in
    let w = around in
    let s = service in
    let json = state_text in
    (r : ControlRequest) × (control_request_from_json json ≡ ok r)
    × (validate r ≡ ok tt)
    × (r.topology_revision ≡ current_topology_revision s)
unfolding dispatch read_members read_uint read_command TopologyController.load
    TopologyController.init
dispatch_accepted_example = dispatch_accepted ten_packets around service state_text refl

analysis_events-AreNumbered_example :
    let s = service in
    let outcome = flood_outcome in
    AreNumbered
      (current_topology_revision s)
      s.next_event_sequence
      (analysis_stamps (analysis_events s outcome).1)
      (analysis_events s outcome).0.next_event_sequence
analysis_events-AreNumbered_example = analysis_events-AreNumbered service flood_outcome

advance_benchmark-IsSlice_example :
    let runs = ten_packets in
    let s = service in
    let max_packets : ℕ = 5 in IsSlice runs s (advance_benchmark runs s max_packets)
advance_benchmark-IsSlice_example = advance_benchmark-IsSlice ten_packets service 5

from_bytes-Holds_example : let bytes = capture_bytes in Holds (IsCapture bytes) (from_bytes bytes)
from_bytes-Holds_example = from_bytes-Holds capture_bytes

view-IsView_example :
    let c = capture in
    let index : ℕ = 0 in let ingress_port : ℕ = 1 in IsView (view c index ingress_port)
view-IsView_example = view-IsView capture 0 1 ((omega arith, omega arith), tt)
