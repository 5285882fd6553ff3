-- ===== src/Tests/Analysis.antt =====
-- The packet analyzer at concrete inputs.
use packet_switch.Prelude.{
  ◌≡◌, List, ◌∷◌, ℕ, [], some, ap, length, ok, value_or, sym, map, not, arith, refl,
}
use packet_switch.Tests.{mac_b, histogram, views_ab, view_ab, analyses_ab}
use packet_switch.PacketParser.Bounds.{Safe, parse_packet-Safe}
use packet_switch.Ranking.Histograms.{IsAscending, total, aggregate_histogram_lem}
use packet_switch.Frame.{MacAddress}
use packet_switch.Ranking.{aggregate_histogram, aggregate}
use packet_switch.PacketParser.{parse_packet}
use packet_switch.PacketBatch.{PacketBatch, create, packet_views}
use packet_switch.Aggregator.Counts.{HasCounted, total_bytes, number_of}
use packet_switch.PacketAnalyzer.{analyze_batch, analyze}
use packet_switch.PacketBatch.Storage.{stored}
use packet_switch.Aggregator.{is_wellformed, has_ethernet}
use packet_switch.PacketAnalyzer.Agreement.{analyze_batch-create}
use packet_switch.PacketBatch.Create.{packet_views-create}
use packet_switch.Ranking.Counting.{aggregate-counted}

parse_packet-Safe_example : let v = view_ab in Safe (parse_packet v)
parse_packet-Safe_example =
    parse_packet-Safe view_ab (λ d at. ap (λ o. length (value_or o [])) (sym at))

packet_views-create_example :
    let packets = views_ab in
    let timestamp : ℕ = 7 in
    (batch : PacketBatch) × (create (some packets) (length packets) timestamp ≡ ok batch)
    × (packet_views batch ≡ some (map stored packets))
packet_views-create_example =
    packet_views-create views_ab 7 (((refl, omega arith), ((refl, omega arith), tt))) (omega arith)

analyze_batch-create_example :
    let learned = mac_b ∷ [] in
    let views = views_ab in
    let timestamp : ℕ = 7 in
    (batch : PacketBatch) × (create (some views) (length views) timestamp ≡ ok batch)
    × (analyze_batch learned batch ≡ analyze learned views)
analyze_batch-create_example =
    analyze_batch-create (mac_b ∷ []) views_ab 7 (((refl, omega arith), ((refl, omega arith), tt)))
      (omega arith)

aggregate-counted_example :
    let learned : List MacAddress = [] in
    let ps = analyses_ab in
    HasCounted
      (length ps)
      (total_bytes ps)
      (number_of (λ a. not (is_wellformed a.validity)) ps)
      (number_of (λ a. has_ethernet a.validity) ps)
      (length ps)
      (aggregate learned ps).1
aggregate-counted_example = aggregate-counted [] analyses_ab

aggregate_histogram_lem_example :
    let xs = histogram in
    IsAscending (aggregate_histogram xs)
    × ((value : ℕ)
        → (total (λ e. e.packet_count) value (aggregate_histogram xs)
            ≡ total (λ e. e.packet_count) value xs)
          × (total (λ e. e.byte_count) value (aggregate_histogram xs)
              ≡ total (λ e. e.byte_count) value xs))
aggregate_histogram_lem_example = aggregate_histogram_lem histogram
