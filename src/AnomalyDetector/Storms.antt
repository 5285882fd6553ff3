-- ===== src/AnomalyDetector/Storms.antt =====
-- The broadcast storms that `AnomalyDetector::evaluate` of src/anomaly_detector.cpp reports.
use packet_switch.Prelude.{
  ◌≡◌, ◌≢◌, refl, sym, subst, ap, if_neg, Option-cases, ◌∙◌, List, Bool, select, ℕ, some, none,
  Option, true, ◌∷◌, arith, [], ◌+◌, ◌%◌, ◌^◌, ◌<◌, Bool-cases, ◌&&◌, ltb, inl, inr, not, ◌++◌, ◌⊎◌,
  map, if◌then◌else◌, holds, any_of, false, false≢true, ◌↔◌,
}
use packet_switch.AnomalyDetector.{
  evaluate, AnomalyDetector, AnomalyDetectorConfig, active_discrete, ActiveAnomaly, is_active,
  active_of, current, slide, event_less, candidates, exceeds, mac_event, malformed_event,
}
use packet_switch.Traffic.{
  Tables, TrafficCounter, ObservedPacket, observe, observe_all, no_tables, is_class_broadcast,
  bump_if, bump,
}
use packet_switch.Anomaly.{AnomalyEvent, broadcast_storm}
use packet_switch.Packet.{PacketAnalysis}
use packet_switch.Frame.{MacAddress, mac_discrete}
use packet_switch.Prelude.Sorting.{IsIn, IsIn-sort}
use packet_switch.Prelude.Maps.{find, Distinct, assign, assign-Distinct, find-assign}

-- The broadcast frames of a sender among some packets.
unfoldable pub broadcasts_of : MacAddress → List ObservedPacket → ℕ
broadcasts_of mac [] = 0
broadcasts_of mac (o ∷ os) =
    (if is_class_broadcast o.packet.classification && holds (mac_discrete o.packet.source_mac mac)
      then 1
      else 0)
    + broadcasts_of mac os

counted : Option TrafficCounter → ℕ
counted none = 0
counted (some c) = c.packets

bumped :
    (test : Bool) (key mac : MacAddress) (p : PacketAnalysis)
    (m : List (MacAddress × TrafficCounter))
    → counted (find mac_discrete mac (bump_if mac_discrete test key p m)) % 2 ^ 64
      ≡ ((if test && holds (mac_discrete key mac) then 1 else 0)
          + counted (find mac_discrete mac m))
        % 2 ^ 64
unfolding counted
bumped test key mac p m =
    ground (arith, find-assign mac_discrete mac key (bump (find mac_discrete key m) p) m)

observed :
    (mac : MacAddress) (t : Tables) (os : List ObservedPacket)
    → counted (find mac_discrete mac (observe_all t os).broadcasts) % 2 ^ 64
      ≡ (broadcasts_of mac os + counted (find mac_discrete mac t.broadcasts)) % 2 ^ 64
unfolding observe_all observe broadcasts_of
observed mac t [] = omega arith
observed mac t (o ∷ os) = omega (
  arith,
  observed mac (observe t o.packet) os,
  bumped (is_class_broadcast o.packet.classification) o.packet.source_mac mac o.packet t.broadcasts,
)

IsIn-append : {A : Type 0} (e : A) (xs ys : List A) → IsIn e (xs ++ ys) → IsIn e xs ⊎ IsIn e ys
IsIn-append e [] ys h = inr h
IsIn-append e (x ∷ xs) ys h = ground (arith, IsIn-append e xs ys)

IsIn-map :
    {A B : Type 0} (f : A → B) (e : B) (xs : List A)
    → IsIn e (map f xs)
    → (x : A) × IsIn x xs × (e ≡ f x)
IsIn-map f e [] h = absurd h
IsIn-map f e (x ∷ xs) (inl h) = (x, inl refl, h)
IsIn-map f e (x ∷ xs) (inr h) = let (y, there, same) = IsIn-map f e xs h in (y, inr there, same)

IsIn-select :
    {A : Type 0} (p : A → Bool) (e : A) (es : List A)
    → IsIn e (select p es)
    → IsIn e es × (p e ≡ true)
IsIn-select p e [] h = absurd h
IsIn-select p e (x ∷ es) h = elim (Bool-cases (p x)) [
  | inl kept ↦ elim (rw kept at h) [
    | inl same ↦ (inl same, ap p same ∙ kept)
    | inr there ↦ let (in_es, yes_p) = IsIn-select p e es there in (inr in_es, yes_p)
  ]
  | inr dropped ↦ let (in_es, yes_p) = IsIn-select p e es (rw dropped at h) in (inr in_es, yes_p)
]

find-IsIn :
    (mac : MacAddress) (c : TrafficCounter) (m : List (MacAddress × TrafficCounter))
    → Distinct mac_discrete m
    → IsIn (mac, c) m
    → find mac_discrete mac m ≡ some c
unfolding find
find-IsIn mac c [] d h = absurd h
find-IsIn mac c ((k, v) ∷ m) (fresh, d) (inl same) =
    ground (arith, ap (λ t. t.0) same, ap (λ t. t.1) same)
find-IsIn mac c ((k, v) ∷ m) (fresh, d) (inr there) =
    ground (arith, find-IsIn mac c m d there, fresh)

broadcasts-Distinct :
    (t : Tables) (os : List ObservedPacket)
    → Distinct mac_discrete t.broadcasts
    → Distinct mac_discrete (observe_all t os).broadcasts
unfolding observe_all observe
broadcasts-Distinct t [] d = d
broadcasts-Distinct t (o ∷ os) d =
    broadcasts-Distinct (observe t o.packet) os
      (kept (is_class_broadcast o.packet.classification) o.packet.source_mac _ t.broadcasts d)
  where
    kept :
        (test : Bool) (key : MacAddress) (c : TrafficCounter)
        (m : List (MacAddress × TrafficCounter))
        → Distinct mac_discrete m
        → Distinct mac_discrete (if test then assign mac_discrete key c m else m)
    kept true key c m d = assign-Distinct mac_discrete key c m d
    kept false key c m d = d

is_active_iff :
    (active : List ActiveAnomaly) (k : ActiveAnomaly)
    → (any_of (λ a. holds (active_discrete a k)) active ≡ true) ↔ IsIn k active
is_active_iff [] k = (λ h. absurd (false≢true h), λ h. absurd h)
is_active_iff (a ∷ active) k = ground (arith, is_active_iff active k)

-- A storm is not among the events that a function makes of another type.
other_type :
    {A : Type 0} (f : A → AnomalyEvent) (e : AnomalyEvent) (xs : List A) (es : List AnomalyEvent)
    → ((x : A) → (f x).type ≢ broadcast_storm)
    → e.type ≡ broadcast_storm
    → IsIn e (map f xs ++ es)
    → IsIn e es
other_type f e xs es other storm h = elim (IsIn-append e (map f xs) es h) [
  | inr there ↦ there
  | inl here ↦
      let (x, _, same) = IsIn-map f e xs here in
      absurd (other x (sym (ap (λ (v : AnomalyEvent). v.type) same) ∙ storm))
]

module _ (config : AnomalyDetectorConfig) (t : Tables) where
  -- A candidate that is a broadcast storm comes from the counters of broadcasts.
  candidate-storm :
      (e : AnomalyEvent)
      → IsIn e (candidates config t)
      → e.type ≡ broadcast_storm
      → (x : MacAddress × TrafficCounter) × IsIn x t.broadcasts
        × (e ≡ mac_event config broadcast_storm config.broadcast_packets_threshold x)
        × (exceeds e ≡ true)
  unfolding candidates
  candidate-storm e h storm =
      let (found, over) = IsIn-select exceeds e _ h in
      elim (IsIn-append e
        (map (mac_event config broadcast_storm config.broadcast_packets_threshold) t.broadcasts) _
        found) [
          | inl here ↦
              let (x, in_table, same) = IsIn-map _ e t.broadcasts here in (x, in_table, same, over)
          | inr there ↦
              let flood = other_type _ e t.unknown_unicasts _ (λ x w. cc) storm there in
              let udp = other_type _ e t.udp_sources _ (λ x w. cc) storm flood in
              let scan = other_type _ e t.scan_destinations _ (λ x w. cc) storm udp in
              let flap = other_type _ e t.ingress_ports _ (λ x w. cc) storm scan in
              let talk = other_type _ e t.source_traffic _ (λ x w. cc) storm flap in
              let (x, _, same) =
                IsIn-map (malformed_event config) e t.malformed_ingress_ports talk in
              absurd (cc)
        ]

-- The frames that the event counts are those of its sender in a window, above a threshold that is set.
abbrev pub IsStorm : AnomalyDetectorConfig → List ObservedPacket → AnomalyEvent → Type 0
IsStorm config window e =
    (0 < config.broadcast_packets_threshold)
    × (config.broadcast_packets_threshold < e.observed_packets)
    × (e.observed_packets % 2 ^ 64 ≡ broadcasts_of e.source_mac window % 2 ^ 64)

mac_event-IsStorm :
    (config : AnomalyDetectorConfig) (window : List ObservedPacket)
    (x : MacAddress × TrafficCounter)
    → IsIn x (observe_all no_tables window).broadcasts
    → let e = mac_event config broadcast_storm config.broadcast_packets_threshold x in
      exceeds e ≡ true → IsStorm config window e
unfolding counted find
mac_event-IsStorm config window x in_table over =
    let unique = broadcasts-Distinct no_tables window tt in
    let at = find-IsIn x.0 x.1 (observe_all no_tables window).broadcasts unique in_table in
    (
      ground (arith, over),
      ground (arith, over),
      omega (arith, ap counted at, observed x.0 no_tables window),
    )

current-IsStorm :
    (config : AnomalyDetectorConfig) (window : List ObservedPacket) (e : AnomalyEvent)
    → IsIn e (current config window)
    → e.type ≡ broadcast_storm
    → IsStorm config window e
unfolding current
current-IsStorm config window e found storm =
    let tables = observe_all no_tables window in
    let (x, in_table, made, over) =
      candidate-storm config tables e ((IsIn-sort event_less e (candidates config tables)).0 found)
        storm in
    subst (λ v. IsStorm config window v) (sym made)
      (mac_event-IsStorm config window x in_table (subst (λ v. exceeds v ≡ true) made over))

IsIn-find :
    (mac : MacAddress) (c : TrafficCounter) (m : List (MacAddress × TrafficCounter))
    → find mac_discrete mac m ≡ some c
    → IsIn (mac, c) m
unfolding find
IsIn-find mac c [] h = cc
IsIn-find mac c ((k, v) ∷ m) h = elim (mac_discrete k mac) [
  | yes e ↦ inl (ground (arith, h, e))
  | no n ↦ inr (IsIn-find mac c m (sym (if_neg (mac_discrete k mac) n _ _) ∙ h))
]

mapped-IsIn :
    {A B : Type 0} (f : A → B) (x : A) (xs : List A) (ys : List B)
    → IsIn x xs
    → IsIn (f x) (map f xs ++ ys)
mapped-IsIn f x [] ys h = absurd h
mapped-IsIn f x (y ∷ xs) ys (inl same) = inl (ap f same)
mapped-IsIn f x (y ∷ xs) ys (inr there) = inr (mapped-IsIn f x xs ys there)

selected-IsIn :
    {A : Type 0} (p : A → Bool) (e : A) (es : List A)
    → IsIn e es
    → p e ≡ true
    → IsIn e (select p es)
selected-IsIn p e [] h k = absurd h
selected-IsIn p e (x ∷ es) (inl same) k = let kept = sym (ap p same) ∙ k in rw kept (inl same)
selected-IsIn p e (x ∷ es) (inr there) k = elim (Bool-cases (p x)) [
  | inl kept ↦ rw kept (inr (selected-IsIn p e es there k))
  | inr dropped ↦ rw dropped (selected-IsIn p e es there k)
]

-- A sender above the threshold is a candidate.
current-IsIn :
    (config : AnomalyDetectorConfig) (window : List ObservedPacket) (mac : MacAddress)
    → 0 < config.broadcast_packets_threshold
    → config.broadcast_packets_threshold < broadcasts_of mac window % 2 ^ 64
    → (c : TrafficCounter) × IsIn
        (mac_event config broadcast_storm config.broadcast_packets_threshold (mac, c))
        (current config window)
unfolding current candidates counted find
current-IsIn config window mac set over =
    let tables = observe_all no_tables window in
    let total = observed mac no_tables window in
    elim (Option-cases (find mac_discrete mac tables.broadcasts)) [
      | inl miss ↦ absurd (omega (arith, ap counted miss, total, over))
      | inr (c, hit) ↦
          let e = mac_event config broadcast_storm config.broadcast_packets_threshold (mac, c) in
          let many : config.broadcast_packets_threshold < c.packets =
            omega (arith, ap counted hit, total, over) in
          (
            c,
            (IsIn-sort event_less e _).1 (
                selected-IsIn exceeds e _
                  (mapped-IsIn (mac_event config broadcast_storm config.broadcast_packets_threshold)
                    (mac, c) tables.broadcasts _ (IsIn-find mac c tables.broadcasts hit))
                  (ground (arith, many, set))),
          )
    ]

-- A call that is not refused reports the broadcast storms of its window. Each one reported was not
-- active before, and is that of a sender whose broadcast frames in the window are more than the
-- threshold, which is not 0; the event counts them (modulo 2 ^ 64). And each sender with more such
-- frames, modulo 2 ^ 64, than a threshold that is not 0 has a storm that is reported or was active.
pub evaluate-storms :
    (d : AnomalyDetector) (ps : List PacketAnalysis) (time : ℕ) (events : List AnomalyEvent)
    → (evaluate d ps time).1 ≡ some events
    → let window = (evaluate d ps time).0.observations in
      ((e : AnomalyEvent)
        → IsIn e events
        → e.type ≡ broadcast_storm
        → (¬ IsIn (active_of e) d.active_anomalies) × IsStorm d.config window e)
      × ((mac : MacAddress)
          → 0 < d.config.broadcast_packets_threshold
          → d.config.broadcast_packets_threshold < broadcasts_of mac window % 2 ^ 64
          → (e : AnomalyEvent) × (e.type ≡ broadcast_storm)
            × (e.source_mac ≡ mac)
            × (IsIn e events ⊎ IsIn (active_of e) d.active_anomalies))
unfolding evaluate
evaluate-storms d ps time events accepted =
    elim (Bool-cases (d.has_timestamp && ltb time d.last_timestamp_ns)) [
      | inl back ↦ absurd (ground arith)
      | inr onward ↦
          let same : events ≡ select is_new (current d.config (slide d ps time)) = ground arith in
          rw (same, onward, evaluate) (sound, complete)
    ]
  where
    is_new : AnomalyEvent → Bool
    is_new e = not (is_active d.active_anomalies e)

    sound :
        (e : AnomalyEvent)
        → IsIn e (select is_new (current d.config (slide d ps time)))
        → e.type ≡ broadcast_storm
        → (¬ IsIn (active_of e) d.active_anomalies) × IsStorm d.config (slide d ps time) e
    sound e reported storm =
        let (found, fresh) = IsIn-select is_new e _ reported in
        let active = is_active_iff d.active_anomalies (active_of e) in
        (
          (λ was. absurd (false≢true (sym (ap not (active.1 was)) ∙ fresh))),
          current-IsStorm d.config (slide d ps time) e found storm,
        )

    complete :
        (mac : MacAddress)
        → 0 < d.config.broadcast_packets_threshold
        → d.config.broadcast_packets_threshold < broadcasts_of mac (slide d ps time) % 2 ^ 64
        → (e : AnomalyEvent) × (e.type ≡ broadcast_storm)
          × (e.source_mac ≡ mac)
          × (IsIn e (select is_new (current d.config (slide d ps time)))
              ⊎ IsIn (active_of e) d.active_anomalies)
    complete mac set over =
        let (c, found) = current-IsIn d.config (slide d ps time) mac set over in
        let e = mac_event d.config broadcast_storm d.config.broadcast_packets_threshold (mac, c) in
        (
          e,
          refl,
          refl,
          elim (Bool-cases (is_active d.active_anomalies e)) [
            | inl was ↦ inr ((is_active_iff d.active_anomalies (active_of e)).0 was)
            | inr fresh ↦ inl (selected-IsIn is_new e _ found (ap not fresh))
          ],
        )
