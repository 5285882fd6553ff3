-- ===== src/ControlProtocol/ReplyTrip.antt =====
-- Printed replies in the parser of replies.
use packet_switch.Json.{
  follow, read_string, member_round, read_uint, pure, read_bool, consume, repeat, accept,
  read_members,
}
use packet_switch.Json.Loops.{Runs, leaves, stays, Runs-repeat, Below, follow-Below, Below-mono}
use packet_switch.Json.Shrinking.{
  member_round-Consumes, read_string-Below, choice-Below, read_uint-Below, read_bool-Below,
}
use packet_switch.Json.Members.{follow-ok, member_round-comma, member_round-brace}
use packet_switch.Json.Strings.{json_string, read_string-json_string}
use packet_switch.Json.Numbers.{bool_text, read_bool-bool_text, read_uint-comma}
use packet_switch.ControlProtocol.{ControlReply, empty_reply}
use packet_switch.Prelude.Texts.{Text, ascii, text_eq}
use packet_switch.Prelude.{
  ℕ, ◌<◌, ◌^◌, ◌++◌, ◌∷◌, ◌-◌, ◌≡◌, arith, ok, refl, true, if◌then◌else◌, [], false, suc, length,
  ◌&&◌, not, Bool,
}
use packet_switch.Prelude.Decimal.{decimal}
use packet_switch.ControlProtocol.Replies.{
  reply_member, no_members, reply_members, ReplyScan, control_reply_from_json, finish_reply,
}
use packet_switch.ControlProtocol.Printing.{reply_to_json}

abbrev read_so_far : ControlReply → ReplyScan
read_so_far r = record {
  reply = record empty_reply {
    api_version = r.api_version;
    request_id = r.request_id;
    accepted = r.accepted;
    topology_revision = r.topology_revision;
  };
  has_api_version = true;
  has_request_id = true;
  has_accepted = true;
  has_topology_revision = true;
  has_operation_id = false;
  has_error = false;
}

reply_run :
    (r : ControlReply) (tail rest : Text) {final : ReplyScan}
    → r.api_version < 2 ^ 32
    → r.topology_revision < 2 ^ 64
    → Runs (member_round reply_member) (read_so_far r) tail final rest
    → Runs
        (member_round reply_member)
        no_members
        (ascii "\"api_version\":"
          ++ (decimal r.api_version
              ++ (ascii ",\"request_id\":"
                  ++ (json_string r.request_id
                      ++ (ascii ",\"accepted\":"
                          ++ (bool_text r.accepted
                              ++ (ascii ",\"topology_revision\":"
                                  ++ (decimal r.topology_revision ++ b',' ∷ tail))))))))
        final
        rest
unfolding json_string reply_member
reply_run r tail rest h k last =
    stays
      (member_round-comma reply_member _ no_members _ _ _ _
        (read_string-json_string (ascii "api_version") _)
        (follow-ok _ (read_uint-comma (2 ^ 32 - 1) r.api_version _ (omega arith) (omega arith))))
      (stays
        (member_round-comma reply_member _ _ _ _ _ _
          (read_string-json_string (ascii "request_id") _)
          (follow-ok _ (read_string-json_string r.request_id _)))
        (stays
          (member_round-comma reply_member _ _ _ _ _ _
            (read_string-json_string (ascii "accepted") _)
            (follow-ok _ (read_bool-bool_text r.accepted _)))
          (stays
            (member_round-comma reply_member _ _ _ _ _ _
              (read_string-json_string (ascii "topology_revision") _)
              (follow-ok _ (
                read_uint-comma (2 ^ 64 - 1) r.topology_revision tail (omega arith) (omega arith))))
            last)))

operation_run :
    (r : ControlReply) (rest : Text)
    → Runs
        (member_round reply_member)
        (read_so_far r)
        (ascii "\"operation_id\":" ++ (json_string r.operation_id ++ b'}' ∷ rest))
        (record (read_so_far r) {
          reply = record (read_so_far r).reply { operation_id = r.operation_id };
          has_operation_id = true;
        })
        rest
unfolding json_string reply_member
operation_run r rest = leaves (
    member_round-brace reply_member _ _ _ _ _ _ (read_string-json_string (ascii "operation_id") _)
      (follow-ok _ (read_string-json_string r.operation_id _)))

error_run :
    (r : ControlReply) (rest : Text)
    → Runs
        (member_round reply_member)
        (read_so_far r)
        (ascii "\"error\":" ++ (json_string r.error ++ b'}' ∷ rest))
        (record (read_so_far r) {
          reply = record (read_so_far r).reply { error = r.error };
          has_error = true;
        })
        rest
unfolding json_string reply_member
error_run r rest = leaves (
    member_round-brace reply_member _ _ _ _ _ _ (read_string-json_string (ascii "error") _)
      (follow-ok _ (read_string-json_string r.error _)))

pub reply_member-Below :
    (key : Text) (s : ReplyScan) (t : Text) → Below (suc (length t)) (reply_member key s t)
unfolding reply_member
reply_member-Below key s t =
    choice-Below _ (text_eq key (ascii "api_version") && not s.has_api_version) _ _ t
      (follow-Below (read_uint (2 ^ 32 - 1) t) _ (read_uint-Below (2 ^ 32 - 1) t) (λ n rest h. h))
      (choice-Below _ (text_eq key (ascii "request_id") && not s.has_request_id) _ _ t (text t _) (
        choice-Below _ (text_eq key (ascii "accepted") && not s.has_accepted) _ _ t
          (follow-Below (read_bool t) _ (read_bool-Below t) (λ n rest h. h))
          (choice-Below _ (text_eq key (ascii "topology_revision") && not s.has_topology_revision) _
            _ t
            (follow-Below (read_uint (2 ^ 64 - 1) t) _ (read_uint-Below (2 ^ 64 - 1) t)
              (λ n rest h. h))
            (choice-Below _ (text_eq key (ascii "operation_id") && not s.has_operation_id) _ _ t
              (text t _)
              (choice-Below _ (text_eq key (ascii "error") && not s.has_error) _ _ t (text t _)
                tt)))))
  where
    text :
        (t : Text) (f : Text → ReplyScan)
        → Below (suc (length t)) (follow (read_string t) (λ v. pure (f v)))
    text t f =
        follow-Below (read_string t) _
          (Below-mono (read_string t) (omega arith) (read_string-Below t)) (λ v rest h. h)

reply_members-Runs :
    (s : ReplyScan) (t : Text)
    → Runs (member_round reply_member) no_members (b'"' ∷ t) s []
    → reply_members (b'{' ∷ b'"' ∷ t) ≡ ok (s, [])
unfolding reply_members consume repeat accept member_round read_members
reply_members-Runs s t run =
    Runs-repeat (member_round reply_member) (member_round-Consumes reply_member reply_member-Below)
      (suc (suc (length t))) run (omega arith)

control_reply_from_json-Runs :
    (s : ReplyScan) (t : Text)
    → Runs (member_round reply_member) no_members (b'"' ∷ t) s []
    → control_reply_from_json (b'{' ∷ b'"' ∷ t) ≡ finish_reply s []
unfolding control_reply_from_json
control_reply_from_json-Runs s t run = rw (reply_members-Runs s t run, control_reply_from_json) refl

abbrev assemble : ℕ → Text → Bool → ℕ → Text → Text → ControlReply
assemble version id accepted revision operation error = record {
  api_version = version;
  request_id = id;
  accepted = accepted;
  topology_revision = revision;
  operation_id = operation;
  error = error;
}

trip :
    (version : ℕ) (id : Text) (accepted : Bool) (revision : ℕ) (operation error : Text)
    → version < 2 ^ 32
    → revision < 2 ^ 64
    → let r = assemble version id accepted revision operation error in
      control_reply_from_json (reply_to_json r)
      ≡ ok (if accepted then record r { error = [] } else record r { operation_id = [] })
unfolding reply_to_json finish_reply
trip version id true revision operation error h k =
    let r = assemble version id true revision operation error in
    control_reply_from_json-Runs _ _ (reply_run r _ [] h k (operation_run r []))
trip version id false revision operation error h k =
    let r = assemble version id false revision operation error in
    control_reply_from_json-Runs _ _ (reply_run r _ [] h k (error_run r []))

-- A reply whose version and revision their types hold is read back from its text; the text of an
-- accepted reply leaves the error out, that of a rejected one the operation.
pub control_reply_from_json-reply_to_json :
    (r : ControlReply)
    → r.api_version < 2 ^ 32
    → r.topology_revision < 2 ^ 64
    → control_reply_from_json (reply_to_json r)
      ≡ ok (if r.accepted then record r { error = [] } else record r { operation_id = [] })
control_reply_from_json-reply_to_json r h k =
    trip r.api_version r.request_id r.accepted r.topology_revision r.operation_id r.error h k
