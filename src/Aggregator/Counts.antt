-- ===== src/Aggregator/Counts.antt =====
-- The counters of `PacketAnalysisAggregator::aggregate`, and the addresses that it learns.
use packet_switch.Prelude.{
  ℕ, List, arith, ◌<◌, Bool-cases, ◌+◌, length-select-le, if◌then◌else◌, ◌∷◌, length, Bool, ◌≡◌,
  suc, ◌%◌, [], ◌∙◌, leb, refl, length-append, ◌^◌, zero, inl, inr, not, false, sym, false≢true,
}
use packet_switch.Packet.{
  PacketAnalysis, PacketValidity, valid, malformed_ethernet, malformed_ipv4, malformed_transport,
}
use packet_switch.Frame.{MacAddress, is_broadcast}
use packet_switch.Aggregator.{
  AnalysisBatch, record_ethernet, aggregate_packet, PacketSizeHistogramBucket, count_size,
  bucket_index, count_frame, count_class, push_packet, is_wellformed, classify, has_ethernet,
  later_minimums, is_learned, aggregate_all, add_u64,
}

-- What the counters count: packets that pass a test, and the bytes of all packets.
abbrev pub number_of : (PacketAnalysis → Bool) → List (PacketAnalysis × ℕ) → ℕ
number_of p [] = 0
number_of p ((a, n) ∷ ps) = if p a then suc (number_of p ps) else number_of p ps

abbrev pub total_bytes : List (PacketAnalysis × ℕ) → ℕ
total_bytes [] = 0
total_bytes ((a, n) ∷ ps) = n + total_bytes ps

-- The packets of all buckets.
abbrev pub packets_in : List PacketSizeHistogramBucket → ℕ
packets_in [] = 0
packets_in (bucket ∷ rest) = bucket.packet_count + packets_in rest

abbrev pub classified_packets : AnalysisBatch → ℕ
classified_packets b = b.broadcast_packets + b.unknown_unicast_packets + b.known_unicast_packets

-- A batch has counted some packets: as many, as many bytes, as many malformed and as many with an
-- Ethernet header; and it lists some packets.
abbrev pub HasCounted : ℕ → ℕ → ℕ → ℕ → ℕ → AnalysisBatch → Type 0
HasCounted packets bytes bad headed logged b =
    (b.received_packets ≡ packets % 2 ^ 64)
    × (b.received_bytes ≡ bytes % 2 ^ 64)
    × (b.malformed_packets ≡ bad % 2 ^ 64)
    × (classified_packets b % 2 ^ 64 ≡ headed % 2 ^ 64)
    × (packets_in b.frame_size_histogram % 2 ^ 64 ≡ packets % 2 ^ 64)
    × (length b.frame_size_histogram ≡ 7)
    × (length b.packets ≡ logged)

bucket_index-lt : (n : ℕ) → bucket_index n < 7
bucket_index-lt n = omega (arith, length-select-le (λ low. leb low n) later_minimums)

packets_in-count_size :
    (i n : ℕ) (bs : List PacketSizeHistogramBucket)
    → i < length bs
    → packets_in (count_size i n bs) % 2 ^ 64 ≡ (packets_in bs + 1) % 2 ^ 64
unfolding count_size
packets_in-count_size i n [] h = ground (arith, h)
packets_in-count_size zero n (b ∷ bs) h = omega arith
packets_in-count_size (suc i) n (b ∷ bs) h =
    omega (arith, packets_in-count_size i n bs (omega (arith, h)))

length-count_size :
    (i n : ℕ) (bs : List PacketSizeHistogramBucket) → length (count_size i n bs) ≡ length bs
unfolding count_size
length-count_size i n [] = refl
length-count_size zero n (b ∷ bs) = refl
length-count_size (suc i) n (b ∷ bs) = omega (arith, length-count_size i n bs)

count_frame-HasCounted :
    (p y m h l n : ℕ) (b : AnalysisBatch)
    → HasCounted p y m h l b
    → HasCounted (suc p) (n + y) m h l (count_frame n b)
unfolding count_frame
count_frame-HasCounted p y m h l n b (packets, bytes, bad, headed, sizes, seven, logged) =
    let at =
      packets_in-count_size (bucket_index n) n b.frame_size_histogram
        (omega (arith, bucket_index-lt n, seven)) in
    (
      omega (arith, packets),
      omega (arith, bytes),
      bad,
      headed,
      omega (arith, at, sizes),
      length-count_size (bucket_index n) n b.frame_size_histogram ∙ seven,
      logged,
    )

record_ethernet-HasCounted :
    (p y m h l n : ℕ) (a : PacketAnalysis) (b : AnalysisBatch)
    → HasCounted p y m h l b
    → HasCounted p y (if is_wellformed a.validity then m else suc m) h l (record_ethernet a n b)
unfolding record_ethernet
record_ethernet-HasCounted p y m h l n a b (packets, bytes, bad, headed, sizes, seven, logged) =
    (packets, bytes, ground (arith, bad), headed, sizes, seven, logged)

count_class-HasCounted :
    (p y m h l : ℕ) (learned : List MacAddress) (a : PacketAnalysis) (b : AnalysisBatch)
    → HasCounted p y m h l b
    → HasCounted p y m (suc h) l (count_class (classify learned a) b)
count_class-HasCounted p y m h l learned a b (packets, bytes, bad, headed, sizes, seven, logged) =
    elim (Bool-cases (is_broadcast a.destination_mac)) [
      | inl e ↦ rw e (packets, bytes, bad, omega (arith, headed), sizes, seven, logged)
      | inr e ↦ elim (Bool-cases (is_learned learned a.destination_mac)) [
        | inl k ↦ rw (e, k) (packets, bytes, bad, omega (arith, headed), sizes, seven, logged)
        | inr k ↦ rw (e, k) (packets, bytes, bad, omega (arith, headed), sizes, seven, logged)
      ]
    ]

push_packet-HasCounted :
    (p y m h l : ℕ) (a : PacketAnalysis) (b : AnalysisBatch)
    → HasCounted p y m h l b
    → HasCounted p y m h (suc l) (push_packet a b)
push_packet-HasCounted p y m h l a b (packets, bytes, bad, headed, sizes, seven, logged) = (
  packets,
  bytes,
  bad,
  headed,
  sizes,
  seven,
  omega (arith, logged, length-append b.packets (a ∷ [])),
)

is_wellformed-has_ethernet : (v : PacketValidity) → has_ethernet v ≡ false → is_wellformed v ≡ false
is_wellformed-has_ethernet valid e = absurd (false≢true (sym e))
is_wellformed-has_ethernet malformed_ethernet e = refl
is_wellformed-has_ethernet malformed_ipv4 e = refl
is_wellformed-has_ethernet malformed_transport e = refl

aggregate_packet-HasCounted :
    (p y m h l n : ℕ) (a : PacketAnalysis) (learned : List MacAddress) (b : AnalysisBatch)
    → HasCounted p y m h l b
    → HasCounted
        (suc p)
        (n + y)
        (if is_wellformed a.validity then m else suc m)
        (if has_ethernet a.validity then suc h else h)
        (suc l)
        (aggregate_packet (learned, b) (a, n)).1
unfolding aggregate_packet
aggregate_packet-HasCounted p y m h l n a learned b counted =
    let counts = count_frame n b in
    let after = count_frame-HasCounted p y m h l n b counted in
    elim (Bool-cases (has_ethernet a.validity)) [
      | inl e ↦ rw e (
          push_packet-HasCounted (suc p) (n + y) (if is_wellformed a.validity then m else suc m)
            (suc h) l (record a { classification = classify learned a })
            (count_class (classify learned a) (record_ethernet a n counts))
            (count_class-HasCounted (suc p) (n + y) (if is_wellformed a.validity then m else suc m)
              h l learned a (record_ethernet a n counts)
              (record_ethernet-HasCounted (suc p) (n + y) m h l n a counts after)))
      | inr e ↦
          rw (e, is_wellformed-has_ethernet a.validity e)
            (push_packet-HasCounted (suc p) (n + y) (suc m) h l a
              (record counts { malformed_packets = add_u64 counts.malformed_packets 1 })
              (after.0, after.1, omega (arith, after.2), after.3, after.4, after.5, after.6))
    ]

pub HasCounted-change :
    (p y m h l p' y' m' h' l' : ℕ) (b : AnalysisBatch)
    → (p ≡ p') × (y ≡ y') × (m ≡ m') × (h ≡ h') × (l ≡ l')
    → HasCounted p y m h l b
    → HasCounted p' y' m' h' l' b
HasCounted-change p y m h l p' y' m' h' l' b (at, of, bad, headed, logged) counted =
    rw (sym at, sym of, sym bad, sym headed, sym logged) counted

pub aggregate_all-HasCounted :
    (p y m h l : ℕ) (learned : List MacAddress) (b : AnalysisBatch) (ps : List (PacketAnalysis × ℕ))
    → HasCounted p y m h l b
    → HasCounted
        (p + length ps)
        (y + total_bytes ps)
        (m + number_of (λ a. not (is_wellformed a.validity)) ps)
        (h + number_of (λ a. has_ethernet a.validity) ps)
        (l + length ps)
        (aggregate_all (learned, b) ps).1
unfolding aggregate_all
aggregate_all-HasCounted p y m h l learned b [] counted =
    HasCounted-change p y m h l _ _ _ _ _ b
      (omega arith, omega arith, omega arith, omega arith, omega arith) counted
aggregate_all-HasCounted p y m h l learned b ((a, n) ∷ ps) counted =
    HasCounted-change _ _ _ _ _ _ _ _ _ _
      (aggregate_all (aggregate_packet (learned, b) (a, n)) ps).1
      (omega arith, omega arith, ground arith, ground arith, omega arith)
      (aggregate_all-HasCounted (suc p) (n + y) (if is_wellformed a.validity then m else suc m)
        (if has_ethernet a.validity then suc h else h) (suc l)
        (aggregate_packet (learned, b) (a, n)).0 (aggregate_packet (learned, b) (a, n)).1 ps
        (aggregate_packet-HasCounted p y m h l n a learned b counted))
