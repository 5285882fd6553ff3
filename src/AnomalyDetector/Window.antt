-- ===== src/AnomalyDetector/Window.antt =====
-- The sliding window of src/anomaly_detector.cpp.
use packet_switch.Prelude.{
  ◌≡◌, refl, ℕ, List, false, ◌≤◌, [], ◌∷◌, select, Bool, arith, true, not, Bool-cases, ◌++◌, map,
  ◌&&◌, ltb, ◌<◌, none, inl, inr, ◌⊎◌, is_some, subst, sym, false≢true,
}
use packet_switch.AnomalyDetector.{drop_before, evaluate, AnomalyDetector, slide, stamp, cutoff_at}
use packet_switch.Traffic.{ObservedPacket}
use packet_switch.Packet.{PacketAnalysis}

-- The times rise, from `low` on and up to `high`.
abbrev pub Rising : ℕ → List ObservedPacket → ℕ → Type 0
Rising low [] high = low ≤ high
Rising low (o ∷ os) high = (low ≤ o.timestamp_ns) × Rising o.timestamp_ns os high

-- The observations are in the order of time, none after the last call; there are none before the
-- first.
pub record IsWindow (d : AnomalyDetector) : Type 0 where
  pub rising : Rising 0 d.observations d.last_timestamp_ns
  pub unstarted : d.has_timestamp ≡ false → d.observations ≡ []

abbrev pub is_recent : ℕ → ObservedPacket → Bool
is_recent cutoff o = not (ltb o.timestamp_ns cutoff)

select-all :
    (cutoff low high : ℕ) (os : List ObservedPacket)
    → cutoff ≤ low
    → Rising low os high
    → select (is_recent cutoff) os ≡ os
select-all cutoff low high [] h r = refl
select-all cutoff low high (o ∷ os) h r =
    ground (arith, select-all cutoff o.timestamp_ns high os (omega (arith, r.0)) r.1)

drop_before-select :
    (cutoff low high : ℕ) (os : List ObservedPacket)
    → Rising low os high
    → drop_before cutoff os ≡ select (is_recent cutoff) os
unfolding drop_before
drop_before-select cutoff low high [] r = refl
drop_before-select cutoff low high (o ∷ os) r = elim (Bool-cases (ltb o.timestamp_ns cutoff)) [
  | inl old ↦ ground (arith, drop_before-select cutoff o.timestamp_ns high os r.1)
  | inr recent ↦ ground (arith, select-all cutoff o.timestamp_ns high os (ground arith) r.1)
]

Rising-from :
    (low next high : ℕ) (os : List ObservedPacket)
    → low ≤ next
    → Rising next os high
    → Rising low os high
Rising-from low next high [] h r = omega (arith, h, r)
Rising-from low next high (o ∷ os) h r = (omega (arith, h, r.0), r.1)

Rising-drop_before :
    (cutoff low high : ℕ) (os : List ObservedPacket)
    → Rising low os high
    → Rising low (drop_before cutoff os) high
unfolding drop_before
Rising-drop_before cutoff low high [] r = r
Rising-drop_before cutoff low high (o ∷ os) r = elim (Bool-cases (ltb o.timestamp_ns cutoff)) [
  | inl old ↦
      rw (old, drop_before)
        (Rising-from low o.timestamp_ns high _ r.0
          (Rising-drop_before cutoff o.timestamp_ns high os r.1))
  | inr recent ↦ rw (recent, drop_before) r
]

Rising-stamp :
    (low time : ℕ) (ps : List PacketAnalysis) → low ≤ time → Rising low (map (stamp time) ps) time
Rising-stamp low time [] h = h
Rising-stamp low time (p ∷ ps) h = (h, Rising-stamp time time ps (omega arith))

Rising-append :
    (low high time : ℕ) (os : List ObservedPacket) (ps : List PacketAnalysis)
    → high ≤ time
    → Rising low os high
    → Rising low (os ++ map (stamp time) ps) time
Rising-append low high time [] ps h r = Rising-stamp low time ps (omega (arith, r))
Rising-append low high time (o ∷ os) ps h r =
    (r.0, Rising-append o.timestamp_ns high time os ps h r.1)

Rising-added :
    (d : AnomalyDetector) (ps : List PacketAnalysis) (time : ℕ)
    → IsWindow d
    → (d.has_timestamp && ltb time d.last_timestamp_ns) ≡ false
    → Rising 0 (d.observations ++ map (stamp time) ps) time
Rising-added d ps time v h = elim (Bool-cases d.has_timestamp) [
  | inl started ↦ Rising-append 0 d.last_timestamp_ns time d.observations ps (ground arith) v.rising
  | inr unstarted ↦
      subst (λ os. Rising 0 (os ++ map (stamp time) ps) time) (sym (v.unstarted unstarted))
        (Rising-stamp 0 time ps (omega arith))
]

-- On a window in the order of time, a call with a time before that of the last call is refused and
-- changes nothing. Any other call keeps the times in order, and then the window holds exactly the
-- earlier and the new packets that are not older than the cutoff, in their order.
pub evaluate-IsWindow :
    (d : AnomalyDetector) (ps : List PacketAnalysis) (time : ℕ)
    → IsWindow d
    → (((d.has_timestamp ≡ true) × (time < d.last_timestamp_ns) × (evaluate d ps time ≡ (d, none)))
        ⊎ (((d.has_timestamp && ltb time d.last_timestamp_ns) ≡ false)
            × IsWindow (evaluate d ps time).0
            × (is_some (evaluate d ps time).1 ≡ true)
            × ((evaluate d ps time).0.last_timestamp_ns ≡ time)
            × ((evaluate d ps time).0.observations
                ≡ select
                    (is_recent (cutoff_at d.config time))
                    (d.observations ++ map (stamp time) ps))))
unfolding evaluate slide
evaluate-IsWindow d ps time v =
    elim (Bool-cases (d.has_timestamp && ltb time d.last_timestamp_ns)) [
      | inl back ↦ inl (ground arith, ground arith, ground arith)
      | inr onward ↦
          let added = Rising-added d ps time v onward in
          let window =
            drop_before-select (cutoff_at d.config time) 0 time
              (d.observations ++ map (stamp time) ps) added in
          inr (
            onward,
            rw (onward, evaluate)
                (record {
                  rising =
                      Rising-drop_before (cutoff_at d.config time) 0 time
                        (d.observations ++ map (stamp time) ps) added;
                  unstarted = λ h. absurd (false≢true (sym h));
                }),
            ground arith,
            ground arith,
            ground (arith, window),
          )
    ]
