-- ===== src/PacketAnalyzer/Agreement.antt =====
-- The two overloads of `CpuPacketAnalyzer::analyze`: on views of packets, and on a batch that stores
-- them.
use packet_switch.Prelude.{
  ℕ, List, Option, All, map, ◌<◌, ◌≡◌, ◌∷◌, ◌^◌, [], refl, some, length, ok, min, arith, value_or,
  Bool-cases, subst, ◌==◌, ap, none, inl, inr, ltb, true,
}
use packet_switch.PacketParser.{parse_packet}
use packet_switch.PacketAnalyzer.{
  analyze_batch, parse_stored, analyze, parse_views, with_own_length,
}
use packet_switch.Packet.{PacketView, PacketAnalysis}
use packet_switch.PacketBatch.Storage.{IsStorable, stored, bytes_of}
use packet_switch.Frame.{MacAddress, ◌>>=◌}
use packet_switch.PacketBatch.{PacketBatch, create}
use packet_switch.PacketBatch.Create.{packet_views-create}
use packet_switch.Prelude.Texts.{Text}
use packet_switch.PacketParser.Lengths.{Yields, parse_packet-length}

parse_packet-stored :
    (bytes : Option Text) (size port : ℕ)
    → length (value_or bytes []) ≡ size
    → parse_packet (stored (record { bytes = bytes; size = size; ingress_port = port }))
      ≡ parse_packet (record { bytes = bytes; size = size; ingress_port = port })
unfolding parse_packet
parse_packet-stored none size port h = elim (Bool-cases (size == 0)) [
  | inl e ↦ rw (e, parse_packet) refl
  | inr e ↦ absurd (ground (arith, h, e))
]
parse_packet-stored (some d) size port h = elim (Bool-cases (size == 0)) [
  | inl e ↦ let short : ltb size 14 ≡ true = ground (arith, e) in rw (e, parse_packet, short) refl
  | inr e ↦ rw (e, parse_packet) refl
]

own_length :
    (r : Option PacketAnalysis) (rest : Option (List (PacketAnalysis × ℕ))) (n : ℕ)
    → Yields (λ a. a.frame_length ≡ n) r
    → (do a ← r; others ← rest; some (with_own_length a ∷ others))
      ≡ (do a ← r; others ← rest; some ((a, n) ∷ others))
own_length none rest n h = refl
own_length (some a) rest n h = ap (λ m. (do others ← rest; some ((a, m) ∷ others))) h

parse_stored-stored :
    (views : List PacketView)
    → All IsStorable views
    → parse_stored (map stored views) ≡ parse_views views
unfolding parse_stored parse_views
parse_stored-stored [] storable = refl
parse_stored-stored (v ∷ views) (storable, others) =
    rw
      (
        parse_packet-stored v.bytes v.size v.ingress_port storable.0,
        parse_stored-stored views others,
      )
      (own_length (parse_packet v) (parse_views views) v.size (
        subst (λ n. Yields (λ a. a.frame_length ≡ n) (parse_packet v)) fits
          (parse_packet-length v)))
  where
    fits : min v.size 65535 ≡ v.size
    fits = omega (arith, storable.1)

-- Packets of at most 65535 bytes that hold together fewer than 2^32 bytes are analyzed alike as
-- views and stored in a batch: the same report, and the same addresses are learned.
pub analyze_batch-create :
    (learned : List MacAddress) (views : List PacketView) (timestamp : ℕ)
    → All IsStorable views
    → bytes_of views < 2 ^ 32
    → (batch : PacketBatch) × (create (some views) (length views) timestamp ≡ ok batch)
      × (analyze_batch learned batch ≡ analyze learned views)
unfolding analyze_batch analyze
analyze_batch-create learned views timestamp storable small =
    let (batch, made, read) = packet_views-create views timestamp storable small in
    (batch, made, rw (read, parse_stored-stored views storable) refl)
