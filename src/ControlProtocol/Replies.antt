-- ===== src/ControlProtocol/Replies.antt =====
-- The class `ControlReplyParser` of src/control_protocol.cpp.
use packet_switch.Json.{
  Scanner, ◌>>=◌, ◌>>◌, pure, reject, follow, malformed_json, invalid_field, missing_required_field,
  consume, accept, ControlParseError, read_members, skip_whitespace, read_uint, read_string,
  read_bool,
}
use packet_switch.ControlProtocol.{ControlReply, empty_reply}
use packet_switch.Prelude.{
  Bool, false, Expected, if◌then◌else◌, not, ok, ◌&&◌, unexpected, ◌||◌, ◌^◌, ◌-◌, true,
}
use packet_switch.Prelude.Texts.{Text, text_discrete, text_eq, ascii, is_empty}

-- The reply that is read so far, and which of its members.
pub record ReplyScan : Type 0 where
  pub reply : ControlReply
  pub has_api_version : Bool
  pub has_request_id : Bool
  pub has_accepted : Bool
  pub has_topology_revision : Bool
  pub has_operation_id : Bool
  pub has_error : Bool

abbrev pub no_members : ReplyScan
no_members = record {
  reply = empty_reply;
  has_api_version = false;
  has_request_id = false;
  has_accepted = false;
  has_topology_revision = false;
  has_operation_id = false;
  has_error = false;
}

unfoldable pub reply_member : Text → ReplyScan → Scanner ReplyScan
unfolding text_discrete
reply_member key s =
    if text_eq key (ascii "api_version") && not s.has_api_version
    then (do
      n ← read_uint (2 ^ 32 - 1)
      pure (record s { reply = record s.reply { api_version = n }; has_api_version = true }))
    else if text_eq key (ascii "request_id") && not s.has_request_id
    then (do
      id ← read_string
      pure (record s { reply = record s.reply { request_id = id }; has_request_id = true }))
    else if text_eq key (ascii "accepted") && not s.has_accepted
    then (do
      accepted ← read_bool
      pure (record s { reply = record s.reply { accepted = accepted }; has_accepted = true }))
    else if text_eq key (ascii "topology_revision") && not s.has_topology_revision
    then (do
      n ← read_uint (2 ^ 64 - 1)
      pure (record s {
        reply = record s.reply { topology_revision = n };
        has_topology_revision = true;
      }))
    else if text_eq key (ascii "operation_id") && not s.has_operation_id
    then (do
      id ← read_string
      pure (record s { reply = record s.reply { operation_id = id }; has_operation_id = true }))
    else if text_eq key (ascii "error") && not s.has_error
    then (do
      error ← read_string
      pure (record s { reply = record s.reply { error = error }; has_error = true }))
    else reject invalid_field

-- What `parse` requires once the closing brace is read.
unfoldable pub finish_reply : ReplyScan → Text → Expected ControlReply ControlParseError
unfolding skip_whitespace
finish_reply s rest =
    if not (is_empty (skip_whitespace rest))
    then unexpected malformed_json
    else if not s.has_api_version
        || not s.has_request_id
        || not s.has_accepted
        || not s.has_topology_revision
    then unexpected missing_required_field
    else ok s.reply

unfoldable pub reply_members : Scanner ReplyScan
unfolding follow
reply_members = do
  consume b'{'
  empty ← accept b'}'
  if empty then reject missing_required_field else read_members reply_member no_members

unfoldable pub control_reply_from_json : Text → Expected ControlReply ControlParseError
unfolding reply_members reply_member finish_reply
control_reply_from_json t = elim (reply_members t) [
  | ok (s, rest) ↦ finish_reply s rest
  | unexpected e ↦ unexpected e
]
