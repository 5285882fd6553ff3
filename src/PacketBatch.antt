-- ===== src/PacketBatch.antt =====
-- src/packet_batch.cpp and include/wirelab/packet_batch.hpp: packets stored one after another in one
-- buffer. A read outside a list is `none`.
pub mod Storage
pub mod Create
use packet_switch.Prelude.{
  ℕ, List, Option, length, [], some, suc, if◌then◌else◌, take, get_elem?, ◌∷◌, Expected, ok, ◌==◌,
  not, zero, value_or, ◌++◌, none, ◌&&◌, unexpected, ◌%◌, drop, is_some, ◌^◌, ltb, ◌-◌,
}
use packet_switch.Frame.{◌>>=◌}
use packet_switch.Packet.{PacketView}
use packet_switch.Prelude.Texts.{Text}

pub data PacketBatchError : Type 0 where
  null_packet_bytes packet_too_large batch_too_large : PacketBatchError

pub record PacketBatch : Type 0 where
  pub packet_bytes : Text
  pub packet_offsets : List ℕ
  pub packet_lengths : List ℕ
  pub sender_ids : List ℕ
  pub timestamp_ns : ℕ

-- The bytes that a view points to, none for an empty one.
abbrev pub viewed : PacketView → Text
viewed packet = take packet.size (value_or packet.bytes [])

abbrev pub append_packet : PacketBatch → PacketView → PacketBatch
append_packet batch packet =
    let grown =
      if packet.size == 0 then batch.packet_bytes else batch.packet_bytes ++ viewed packet in
    record batch {
      packet_bytes = grown;
      packet_lengths = batch.packet_lengths ++ packet.size % 2 ^ 16 ∷ [];
      sender_ids = batch.sender_ids ++ packet.ingress_port ∷ [];
      packet_offsets = batch.packet_offsets ++ length grown % 2 ^ 32 ∷ [];
    }

-- The loop of `create`.
unfoldable pub append_packets :
    PacketBatch → List PacketView → Expected PacketBatch PacketBatchError
append_packets batch [] = ok batch
append_packets batch (packet ∷ packets) =
    let rest = append_packets (append_packet batch packet) packets in
    if not (packet.size == 0) && not (is_some packet.bytes)
    then unexpected null_packet_bytes
    else if ltb (2 ^ 16 - 1) packet.size
    then unexpected packet_too_large
    else if ltb (2 ^ 32 - 1 - length batch.packet_bytes) packet.size
    then unexpected batch_too_large
    else rest

unfoldable pub empty_batch : ℕ → PacketBatch
empty_batch timestamp = record {
  packet_bytes = [];
  packet_offsets = 0 ∷ [];
  packet_lengths = [];
  sender_ids = [];
  timestamp_ns = timestamp;
}

-- The pointer to the packets may be null, and then their number must be 0.
unfoldable pub create : Option (List PacketView) → ℕ → ℕ → Expected PacketBatch PacketBatchError
create none packet_count timestamp =
    if not (packet_count == 0) then unexpected null_packet_bytes else ok (empty_batch timestamp)
create (some packets) packet_count timestamp =
    append_packets (empty_batch timestamp) (take packet_count packets)

abbrev pub packet_count : PacketBatch → ℕ
packet_count batch = length batch.packet_lengths

unfoldable pub view_at : Text → List ℕ → List ℕ → List ℕ → ℕ → Option PacketView
view_at bytes offsets lengths senders index = do
  offset ← get_elem? offsets index
  size ← get_elem? lengths index
  sender ← get_elem? senders index
  some (record {
    bytes = if size == 0 then none else some (take size (drop offset bytes));
    size = size;
    ingress_port = sender;
  })

abbrev pub packet_view : PacketBatch → ℕ → Option PacketView
packet_view batch =
    view_at batch.packet_bytes batch.packet_offsets batch.packet_lengths batch.sender_ids

-- The loop of `packet_views`, over `count` indices from `index` on.
unfoldable pub gather : {A : Type 0} → (ℕ → Option A) → ℕ → ℕ → Option (List A)
gather view index zero = some []
gather view index (suc count) =
    let rest = gather view (suc index) count in
    do first ← view index; others ← rest; some (first ∷ others)

unfoldable pub packet_views : PacketBatch → Option (List PacketView)
packet_views batch = gather (packet_view batch) 0 (packet_count batch)
