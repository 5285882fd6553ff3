-- ===== src/Ranking/Counting.antt =====
-- `PacketAnalysisAggregator::aggregate` of src/packet_analyzer.cpp on a whole batch.
use packet_switch.Prelude.{ℕ, List, ◌≡◌, ◌||◌, any_of, ◌&&◌, length, refl, not, arith}
use packet_switch.Ranking.{aggregate, finish}
use packet_switch.Aggregator.{
  is_learned, has_ethernet, no_batch, buckets, is_wellformed, aggregate_all,
}
use packet_switch.Aggregator.Counts.{
  HasCounted, total_bytes, number_of, aggregate_all-HasCounted, HasCounted-change,
}
use packet_switch.Frame.{MacAddress, mac_eq}
use packet_switch.Packet.{PacketAnalysis}
use packet_switch.Aggregator.Learning.{is_learned-aggregate_all}

no_batch-HasCounted : HasCounted 0 0 0 0 0 no_batch
unfolding no_batch buckets
no_batch-HasCounted = (refl, refl, refl, refl, refl, refl, refl)

-- Whatever addresses are known, aggregating counts each packet once: the counters of packets, bytes
-- and malformed packets are those of the given packets, modulo 2^64; the seven buckets of sizes hold
-- as many packets, modulo 2^64, and the list of analyses exactly as many; and those with an Ethernet
-- header are each counted as broadcast, unknown or known, modulo 2^64.
pub aggregate-counted :
    (learned : List MacAddress) (ps : List (PacketAnalysis × ℕ))
    → HasCounted
        (length ps)
        (total_bytes ps)
        (number_of (λ a. not (is_wellformed a.validity)) ps)
        (number_of (λ a. has_ethernet a.validity) ps)
        (length ps)
        (aggregate learned ps).1
unfolding aggregate finish
aggregate-counted learned ps =
    HasCounted-change _ _ _ _ _ _ _ _ _ _ (aggregate_all (learned, no_batch) ps).1
      (omega arith, omega arith, omega arith, omega arith, omega arith)
      (aggregate_all-HasCounted 0 0 0 0 0 learned no_batch ps no_batch-HasCounted)

-- The addresses that are known after a batch are those known before and the sources of the packets
-- that have an Ethernet header.
pub aggregate-is_learned :
    (learned : List MacAddress) (ps : List (PacketAnalysis × ℕ)) (mac : MacAddress)
    → is_learned (aggregate learned ps).0 mac ≡ (
        is_learned learned mac
        || any_of (λ p. has_ethernet p.0.validity && mac_eq p.0.source_mac mac) ps)
unfolding aggregate
aggregate-is_learned learned ps mac = is_learned-aggregate_all learned no_batch ps mac
