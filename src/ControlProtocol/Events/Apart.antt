-- ===== src/ControlProtocol/Events/Apart.antt =====
-- The text of an event in `control_reply_from_json`, the reader of replies.
use packet_switch.Json.{
  member_round, repeat, invalid_field, starts_with_digit, consume, accept, read_members,
  ControlParseError,
}
use packet_switch.Json.Loops.{repeat-again, repeat-unexpected}
use packet_switch.Json.Members.{
  follow-ok, member_round-comma, member_round-unexpected, follow-unexpected,
}
use packet_switch.Json.Strings.{json_string, read_string-json_string}
use packet_switch.ControlProtocol.Replies.{
  ReplyScan, no_members, reply_member, control_reply_from_json, reply_members,
}
use packet_switch.Prelude.Texts.{Text, ascii}
use packet_switch.Prelude.{
  ℕ, ◌≡◌, true, unexpected, suc, ◌++◌, Bool-cases, ◌∷◌, leb, ◌^◌, ◌-◌, inl, arith, ◌∙◌, inr, false,
  refl, length,
}
use packet_switch.ControlProtocol.Events.{
  SwitchMetricsEvent, FaultStateEvent, switch_metrics_to_json, stamped, TopologyStateEvent,
  fault_state_to_json, EventStamp, AnomalyDetectedEvent, topology_state_to_json, PolicyActionEvent,
  anomaly_detected_to_json, SupervisionStateEvent, policy_action_to_json, BenchmarkProgressEvent,
  supervision_state_to_json, benchmark_progress_to_json, BenchmarkResultEvent,
  benchmark_result_to_json,
}
use packet_switch.ControlProtocol.{empty_reply}
use packet_switch.Prelude.Decimal.{decimal}
use packet_switch.Benchmark.{BenchmarkResult}
use packet_switch.Json.Numbers.{read_uint-comma, read_uint-decimal}

-- The overloads of `to_json` on events.
pub data ControlEvent (Real : Type 0) : Type 0 where
  switch_metrics : SwitchMetricsEvent → ControlEvent Real
  fault_state : FaultStateEvent → ControlEvent Real
  topology_state : TopologyStateEvent → ControlEvent Real
  anomaly_detected : AnomalyDetectedEvent → ControlEvent Real
  policy_action : PolicyActionEvent → ControlEvent Real
  supervision_state : SupervisionStateEvent → ControlEvent Real
  benchmark_progress : BenchmarkProgressEvent → ControlEvent Real
  benchmark_result : BenchmarkResultEvent (BenchmarkResult Real) → ControlEvent Real

module _ {Real : Type 0} (json_number : Real → Text) where
  unfoldable pub event_to_json : ControlEvent Real → Text
  unfolding switch_metrics_to_json fault_state_to_json topology_state_to_json
      anomaly_detected_to_json policy_action_to_json supervision_state_to_json
      benchmark_progress_to_json benchmark_result_to_json
  event_to_json (switch_metrics e) = switch_metrics_to_json e
  event_to_json (fault_state e) = fault_state_to_json e
  event_to_json (topology_state e) = topology_state_to_json e
  event_to_json (anomaly_detected e) = anomaly_detected_to_json e
  event_to_json (policy_action e) = policy_action_to_json e
  event_to_json (supervision_state e) = supervision_state_to_json e
  event_to_json (benchmark_progress e) = benchmark_progress_to_json e
  event_to_json (benchmark_result e) = benchmark_result_to_json json_number e

abbrev with_version : ℕ → ReplyScan
with_version n = record no_members {
  reply = record empty_reply { api_version = n };
  has_api_version = true;
}

sequence_round :
    (n : ℕ) (rest : Text)
    → member_round reply_member (with_version n) (ascii "\"event_sequence\":" ++ rest)
      ≡ unexpected invalid_field
unfolding json_string reply_member
sequence_round n rest =
    member_round-unexpected reply_member _ (with_version n) _ _
      (read_string-json_string (ascii "event_sequence") (b':' ∷ rest)) refl

version_round :
    (n : ℕ) (rest : Text)
    → leb n (2 ^ 32 - 1) ≡ false
    → member_round reply_member no_members (ascii "\"api_version\":" ++ (decimal n ++ b',' ∷ rest))
      ≡ unexpected invalid_field
unfolding json_string reply_member starts_with_digit
version_round n rest over =
    let refused = rw over at (read_uint-decimal (2 ^ 32 - 1) n (b',' ∷ rest) (omega arith) refl) in
    member_round-unexpected reply_member _ no_members _ _
      (read_string-json_string (ascii "api_version") _) (follow-unexpected _ refused)

-- The member behind the version is one that no reply has.
members-event :
    (version fuel : ℕ) (rest : Text)
    → repeat
        (member_round reply_member)
        (suc (suc fuel))
        no_members
        (ascii "\"api_version\":" ++ (decimal version ++ (ascii ",\"event_sequence\":" ++ rest)))
      ≡ unexpected invalid_field
unfolding json_string reply_member
members-event version fuel rest = elim (Bool-cases (leb version (2 ^ 32 - 1))) [
  | inl fits ↦
      repeat-again (member_round reply_member) (suc fuel) no_members _ (
        member_round-comma reply_member _ no_members _ _ _ _
          (read_string-json_string (ascii "api_version") _)
          (follow-ok _ (read_uint-comma (2 ^ 32 - 1) version _ (omega arith) (ground arith))))
      ∙ repeat-unexpected (member_round reply_member) fuel (with_version version) _
          (sequence_round version rest)
  | inr over ↦
      repeat-unexpected (member_round reply_member) (suc fuel) no_members _
        (version_round version (ascii "\"event_sequence\":" ++ rest) over)
]

reply_members-unexpected :
    (t : Text) {x : ControlParseError}
    → repeat (member_round reply_member) (suc (suc (length t))) no_members (b'"' ∷ t) ≡ unexpected x
    → reply_members (b'{' ∷ b'"' ∷ t) ≡ unexpected x
unfolding reply_members consume repeat accept member_round read_members
reply_members-unexpected t e = e

control_reply_from_json-unexpected :
    (t : Text) {x : ControlParseError}
    → repeat (member_round reply_member) (suc (suc (length t))) no_members (b'"' ∷ t) ≡ unexpected x
    → control_reply_from_json (b'{' ∷ b'"' ∷ t) ≡ unexpected x
unfolding control_reply_from_json
control_reply_from_json-unexpected t e =
    rw (reply_members-unexpected t e, control_reply_from_json) refl

reply_from-stamped :
    (e : EventStamp) (rest : Text)
    → control_reply_from_json (stamped e rest) ≡ unexpected invalid_field
unfolding stamped
reply_from-stamped e rest = control_reply_from_json-unexpected _ (members-event e.api_version _ _)

-- No event is read as a reply, whatever its fields hold.
pub control_reply_from_json-event_to_json :
    {Real : Type 0} (json_number : Real → Text) (e : ControlEvent Real)
    → control_reply_from_json (event_to_json json_number e) ≡ unexpected invalid_field
unfolding event_to_json
control_reply_from_json-event_to_json json_number (switch_metrics e) = reply_from-stamped e.stamp _
control_reply_from_json-event_to_json json_number (fault_state e) = reply_from-stamped e.stamp _
control_reply_from_json-event_to_json json_number (topology_state e) = reply_from-stamped e.stamp _
control_reply_from_json-event_to_json json_number (anomaly_detected e) =
    reply_from-stamped e.stamp _
control_reply_from_json-event_to_json json_number (policy_action e) = reply_from-stamped e.stamp _
control_reply_from_json-event_to_json json_number (supervision_state e) =
    reply_from-stamped e.stamp _
control_reply_from_json-event_to_json json_number (benchmark_progress e) =
    reply_from-stamped e.stamp _
control_reply_from_json-event_to_json json_number (benchmark_result e) =
    reply_from-stamped e.stamp _
