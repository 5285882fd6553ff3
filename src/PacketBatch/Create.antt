-- ===== src/PacketBatch/Create.antt =====
-- `PacketBatch::create` and `packet_views` of src/packet_batch.cpp.
use mathlib.Core.List.{append-nil, append_assoc}
use packet_switch.Prelude.{
  ℕ, List, Option, All, ◌+◌, ◌<◌, length, ◌^◌, ◌≡◌, some, ◌++◌, ok, ◌∷◌, map, [], refl, ap, arith,
  if◌then◌else◌, sym, value_or, length-append, ◌==◌, take, ◌%◌, Bool-cases, inl, inr, ltb, not,
  false, ◌&&◌, ◌-◌, is_some, none,
}
use packet_switch.PacketBatch.{
  append_packets, create, PacketBatch, packet_views, append_packet, empty_batch,
}
use packet_switch.Packet.{PacketView}
use packet_switch.PacketBatch.Storage.{
  ended, Stores, IsStorable, bytes_of, stored, take-length, gather-Stores, Stores-append,
}
use packet_switch.Prelude.Texts.{Text}

abbrev Holds : PacketBatch → List PacketView → Type 0
Holds b = Stores b.packet_bytes b.packet_offsets b.packet_lengths b.sender_ids

append_empty : (xs ys : Text) → length ys ≡ 0 → xs ++ ys ≡ xs
append_empty [] [] h = refl
append_empty (x ∷ xs) [] h = ap (λ t. x ∷ t) (append_empty xs [] h)
append_empty xs (y ∷ ys) h = absurd (omega (arith, h))

grown_lem :
    (size : ℕ) (bytes d : Text)
    → length d ≡ size
    → (if size == 0 then bytes else bytes ++ take size d) ≡ bytes ++ d
grown_lem size bytes d h = elim (Bool-cases (size == 0)) [
  | inl e ↦ rw e (sym (append_empty bytes d (ground (arith, h, e))))
  | inr e ↦ rw (e, sym h, take-length d) refl
]

not_null :
    (size : ℕ) (bytes : Option Text)
    → length (value_or bytes []) ≡ size
    → (not (size == 0) && not (is_some bytes)) ≡ false
not_null size none h = ground (arith, h)
not_null size (some d) h = ground arith

append_packet-Stores :
    (b : PacketBatch) (v : PacketView) (vs : List PacketView)
    → IsStorable v
    → v.size + length b.packet_bytes < 2 ^ 32
    → Holds b vs
    → Holds (append_packet b v) (vs ++ v ∷ [])
      × (length (append_packet b v).packet_bytes ≡ v.size + length b.packet_bytes)
append_packet-Stores b v vs (fits, short) small stores =
    let d : Text = value_or v.bytes [] in
    let long : length (b.packet_bytes ++ d) ≡ v.size + length b.packet_bytes =
      omega (arith, fits, length-append b.packet_bytes d) in
    let fits32 : length (b.packet_bytes ++ d) % 2 ^ 32 ≡ length (b.packet_bytes ++ d) =
      omega (arith, long, small) in
    let fits16 : v.size % 2 ^ 16 ≡ v.size = omega (arith, short) in
    rw (grown_lem v.size b.packet_bytes d fits, fits32, fits16)
      (
        Stores-append b.packet_bytes d b.packet_offsets b.packet_lengths b.sender_ids vs v refl fits
            stores,
        long,
      )

append_packets-ok :
    (b : PacketBatch) (vs packets : List PacketView)
    → All IsStorable packets
    → bytes_of packets + length b.packet_bytes < 2 ^ 32
    → Holds b vs
    → (out : PacketBatch) × (append_packets b packets ≡ ok out) × Holds out (vs ++ packets)
unfolding append_packets
append_packets-ok b vs [] storable small stores = (b, refl, rw (append-nil vs) stores)
append_packets-ok b vs (v ∷ packets) ((fits, short), storable) small stores =
    let (held, long) = append_packet-Stores b v vs (fits, short) (omega (arith, small)) stores in
    let (out, made, reads) =
      append_packets-ok (append_packet b v) (vs ++ v ∷ []) packets storable
        (omega (arith, small, long)) held in
    (out, accepted out made, rw (sym (append_assoc vs (v ∷ []) packets)) reads)
  where
    accepted :
        (out : PacketBatch)
        → append_packets (append_packet b v) packets ≡ ok out
        → append_packets b (v ∷ packets) ≡ ok out
    accepted out made =
        let small_packet : ltb 65535 v.size ≡ false = ground (arith, short) in
        let room : ltb (4294967295 - length b.packet_bytes) v.size ≡ false =
          ground (arith, small) in
        rw (not_null v.size v.bytes fits, small_packet, room) made

-- Packets of at most 65535 bytes that hold together fewer than 2^32 bytes are accepted, and are then
-- read back in their order with their bytes, sizes and ports; an empty one with a null pointer.
pub packet_views-create :
    (packets : List PacketView) (timestamp : ℕ)
    → All IsStorable packets
    → bytes_of packets < 2 ^ 32
    → (batch : PacketBatch) × (create (some packets) (length packets) timestamp ≡ ok batch)
      × (packet_views batch ≡ some (map stored packets))
unfolding create packet_views empty_batch
packet_views-create packets timestamp storable small =
    let (batch, made, stores) =
      append_packets-ok (empty_batch timestamp) [] packets storable (omega (arith, small)) ended in
    (
      batch,
      rw (take-length packets) made,
      gather-Stores batch.packet_bytes batch.packet_offsets batch.packet_lengths batch.sender_ids
          packets stores,
    )
