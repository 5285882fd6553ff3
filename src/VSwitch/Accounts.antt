-- ===== src/VSwitch/Accounts.antt =====
-- Where the copies of a frame go in src/vswitch.cpp: forwarded, dropped or pending.
use packet_switch.Prelude.{
  ◌≡◌, ℕ, ◌%◌, ◌+◌, length, arith, ◌^◌, Bool, List, select, not, ◌∷◌, [], Bool-cases, refl, inl,
  true, false, ◌++◌, inr, if◌then◌else◌, length-append, some, none, Option, Option-cases,
  unexpected, ok, Expected-cases, ◌∙◌, ap, map, sym,
}
use packet_switch.VSwitch.{
  VSwitch, UdpSocket, FrameGate, deliver, admit, schedule_all, schedule_copies, schedule,
  schedule_copy, copies, is_blocked, learn, process_frame, ScheduledDelivery, inspect, is_due,
}
use packet_switch.MacTable.{MacTable, Endpoint, insert, lookup, get_all_endpoints_except}
use packet_switch.Prelude.Int.{ℤ, lezb}
use packet_switch.Prelude.Texts.{Text}
use packet_switch.Frame.{EthernetFrame, is_broadcast, MacAddress, try_parse}
use packet_switch.FaultEngine.{FaultDecision}
use packet_switch.SwitchMetrics.{
  record_broadcast, record_received, record_drop, record_unknown_unicast,
}

-- Equal up to the wrap-around of a counter.
abbrev pub Adds : ℕ → ℕ → ℕ → Type 0
Adds n old new = new % 2 ^ 64 ≡ (old + n) % 2 ^ 64

Adds-trans : (n k a b c m : ℕ) → Adds n a b → Adds k b c → m ≡ n + k → Adds m a c
Adds-trans n k a b c m h l e = omega arith

abbrev pub is_later : ℤ → ScheduledDelivery → Bool
is_later now d = not (is_due now d)

abbrev pub hits : List Bool → ℕ
hits answers = length (select (λ b. b) answers)

abbrev pub misses : List Bool → ℕ
misses answers = length (select not answers)

abbrev pub addressed : Text → List ℤ → Endpoint → List ScheduledDelivery
addressed frame times to =
    map (λ due. record { due = due; frame_data = frame; destination = to }) times

abbrev pub broadcast : Text → List ℤ → List Endpoint → List ScheduledDelivery
broadcast frame times [] = []
broadcast frame times (to ∷ endpoints) = addressed frame times to ++ broadcast frame times endpoints

select-append :
    {A : Type 0} (p : A → Bool) (xs ys : List A) → select p (xs ++ ys) ≡ select p xs ++ select p ys
select-append p [] ys = refl
select-append p (x ∷ xs) ys = ground (arith, select-append p xs ys)

append_assoc : {A : Type 0} (xs ys zs : List A) → (xs ++ ys) ++ zs ≡ xs ++ (ys ++ zs)
append_assoc [] ys zs = refl
append_assoc (x ∷ xs) ys zs = ap (λ t. x ∷ t) (append_assoc xs ys zs)

append_nil : {A : Type 0} (xs : List A) → xs ++ [] ≡ xs
append_nil [] = refl
append_nil (x ∷ xs) = ap (λ t. x ∷ t) (append_nil xs)

count-append :
    (p : Bool → Bool) (xs ys : List Bool)
    → length (select p (xs ++ ys)) ≡ length (select p xs) + length (select p ys)
count-append p xs ys = ap length (select-append p xs ys) ∙ length-append (select p xs) (select p ys)

module _ {S G : Type 0} (net : UdpSocket S) (gates : FrameGate G) where
  -- The socket after datagrams that are sent one after another, and its answer to each.
  abbrev pub send_each : S → List ScheduledDelivery → S × List Bool
  send_each socket [] = (socket, [])
  send_each socket (d ∷ ds) =
      let sent = net.send_to socket d.frame_data d.destination in
      let rest = send_each sent.0 ds in (rest.0, sent.1 ∷ rest.1)

  -- Some copies are sent, and counted as forwarded or dropped as the socket answers; others wait
  -- behind those that did before. So many more are counted as dropped.
  pub record Goes (sent later : List ScheduledDelivery) (lost : ℕ) (s s' : VSwitch S G)
      : Type 0 where
    pub socket : s'.socket ≡ (send_each s.socket sent).0
    pub forwarded :
        Adds
          (hits (send_each s.socket sent).1)
          s.metrics.forwarded_packets
          s'.metrics.forwarded_packets
    pub dropped :
        Adds
          (lost + misses (send_each s.socket sent).1)
          s.metrics.dropped_packets
          s'.metrics.dropped_packets
    pub pending : s'.pending ≡ s.pending ++ later

  -- Of some copies, those that are due are sent, and the others wait.
  abbrev pub Dispatches : ℤ → List ScheduledDelivery → ℕ → VSwitch S G → VSwitch S G → Type 0
  Dispatches now cs lost s s' = Goes (select (is_due now) cs) (select (is_later now) cs) lost s s'

  send_each-append :
      (socket : S) (xs ys : List ScheduledDelivery)
      → let first = send_each socket xs in
        let rest = send_each first.0 ys in send_each socket (xs ++ ys) ≡ (rest.0, first.1 ++ rest.1)
  send_each-append socket [] ys = refl
  send_each-append socket (x ∷ xs) ys =
      let sent = net.send_to socket x.frame_data x.destination in
      ap (λ (t : S × List Bool). (t.0, sent.1 ∷ t.1)) (send_each-append sent.0 xs ys)

  Dispatches-refl : (now : ℤ) (s : VSwitch S G) → Dispatches now [] 0 s s
  Dispatches-refl now s = record {
    socket = refl;
    forwarded = omega arith;
    dropped = omega arith;
    pending = sym (append_nil s.pending);
  }

  Dispatches-trans :
      (now : ℤ) (xs ys : List ScheduledDelivery) (m n : ℕ) (s s' s'' : VSwitch S G)
      → Dispatches now xs m s s'
      → Dispatches now ys n s' s''
      → Dispatches now (xs ++ ys) (m + n) s s''
  Dispatches-trans now xs ys m n s s' s'' h k =
      let first = send_each s.socket (select (is_due now) xs) in
      let second = send_each s'.socket (select (is_due now) ys) in
      let joined : send_each s.socket (select (is_due now) (xs ++ ys))
          ≡ (second.0, first.1 ++ second.1) =
        ap (send_each s.socket) (select-append (is_due now) xs ys)
        ∙ send_each-append s.socket (select (is_due now) xs) (select (is_due now) ys)
        ∙ ap (λ z. let t = send_each z (select (is_due now) ys) in (t.0, first.1 ++ t.1))
            (sym h.socket) in
      record {
        socket = k.socket ∙ sym (ap (λ t. t.0) joined);
        forwarded = omega (
          arith,
          ap (λ t. hits t.1) joined,
          count-append (λ b. b) first.1 second.1,
          h.forwarded,
          k.forwarded,
        );
        dropped = omega (
          arith,
          ap (λ t. misses t.1) joined,
          count-append not first.1 second.1,
          h.dropped,
          k.dropped,
        );
        pending =
            k.pending
            ∙ ap (λ t. t ++ select (is_later now) ys) h.pending
            ∙ append_assoc s.pending (select (is_later now) xs) (select (is_later now) ys)
            ∙ ap (λ t. s.pending ++ t) (sym (select-append (is_later now) xs ys));
      }

  deliver-Goes :
      (c : ScheduledDelivery) (s : VSwitch S G)
      → Goes (c ∷ []) [] 0 s (deliver net gates s c.frame_data c.destination)
  unfolding deliver
  deliver-Goes c s = elim (Bool-cases (net.send_to s.socket c.frame_data c.destination).1) [
    | inl taken ↦
        let hit : hits (send_each s.socket (c ∷ [])).1 ≡ 1 = ap (λ b. hits (b ∷ [])) taken in
        let miss : misses (send_each s.socket (c ∷ [])).1 ≡ 0 = ap (λ b. misses (b ∷ [])) taken in
        rw taken (record {
          socket = refl;
          forwarded = omega (arith, hit);
          dropped = omega (arith, miss);
          pending = sym (append_nil s.pending);
        })
    | inr refused ↦
        let hit : hits (send_each s.socket (c ∷ [])).1 ≡ 0 = ap (λ b. hits (b ∷ [])) refused in
        let miss : misses (send_each s.socket (c ∷ [])).1 ≡ 1 = ap (λ b. misses (b ∷ [])) refused in
        rw refused (record {
          socket = refl;
          forwarded = omega (arith, hit);
          dropped = omega (arith, miss);
          pending = sym (append_nil s.pending);
        })
  ]

  schedule_copy-Dispatches :
      (now : ℤ) (frame : Text) (to : Endpoint) (due : ℤ) (s : VSwitch S G)
      → Dispatches now
          (addressed frame (due ∷ []) to)
          0
          s
          (schedule_copy net gates now frame to due s)
  schedule_copy-Dispatches now frame to due s =
      let c : ScheduledDelivery = record { due = due; frame_data = frame; destination = to } in
      let waiting : VSwitch S G = record s { pending = s.pending ++ c ∷ [] } in
      elim (lezb due now)
        as (λ t.
          Goes (if t then c ∷ [] else []) (if not t then c ∷ [] else []) 0 s
            (if t then deliver net gates s frame to else waiting)) [
              | true ↦ deliver-Goes c s
              | false ↦ record {
                socket = refl;
                forwarded = omega arith;
                dropped = omega arith;
                pending = refl;
              }
            ]

  schedule_copies-Dispatches :
      (now : ℤ) (frame : Text) (to : Endpoint) (times : List ℤ) (s : VSwitch S G)
      → Dispatches now
          (addressed frame times to)
          0
          s
          (schedule_copies net gates now frame to times s)
  unfolding schedule_copies
  schedule_copies-Dispatches now frame to [] s = Dispatches-refl now s
  schedule_copies-Dispatches now frame to (due ∷ times) s =
      Dispatches-trans now (addressed frame (due ∷ []) to) (addressed frame times to) 0 0 s _ _
        (schedule_copy-Dispatches now frame to due s)
        (schedule_copies-Dispatches now frame to times (schedule_copy net gates now frame to due s))

  schedule_all-Dispatches :
      (frame : Text) (endpoints : List Endpoint) (d : FaultDecision) (now : ℤ) (s : VSwitch S G)
      → Dispatches now
          (broadcast frame (copies net gates d) endpoints)
          0
          s
          (schedule_all net gates s frame endpoints d now)
  unfolding schedule_all schedule
  schedule_all-Dispatches frame [] d now s = Dispatches-refl now s
  schedule_all-Dispatches frame (e ∷ endpoints) d now s =
      Dispatches-trans now (addressed frame (copies net gates d) e)
        (broadcast frame (copies net gates d) endpoints) 0 0 s _ _
        (schedule_copies-Dispatches now frame e (copies net gates d) s)
        (schedule_all-Dispatches frame endpoints d now (schedule net gates s frame e d now))

  -- Nothing that the copies of a frame are counted by has changed.
  quiet-Dispatches :
      (now : ℤ) (s s' : VSwitch S G)
      → s'.socket ≡ s.socket
      → s'.metrics.forwarded_packets ≡ s.metrics.forwarded_packets
      → s'.metrics.dropped_packets ≡ s.metrics.dropped_packets
      → s'.pending ≡ s.pending
      → Dispatches now [] 0 s s'
  quiet-Dispatches now s s' socket forwarded dropped pending = record {
    socket = socket;
    forwarded = omega (arith, forwarded);
    dropped = omega (arith, dropped);
    pending = pending ∙ sym (append_nil s.pending);
  }

  learn-Dispatches :
      (now : ℤ) (s : VSwitch S G) (mac : MacAddress) (sender : Endpoint)
      → Dispatches now [] 0 s (learn net gates s mac sender)
  learn-Dispatches now s mac sender = elim (Bool-cases (insert s.mac_table mac sender).1) [
    | inl fresh ↦ rw fresh (quiet-Dispatches now _ _ refl refl refl refl)
    | inr seen ↦ rw seen (quiet-Dispatches now _ _ refl refl refl refl)
  ]

  -- What becomes of a frame: its copies, or none for a frame that is dropped whole.
  abbrev pub HasHandled : ℤ → Option (List ScheduledDelivery) → VSwitch S G → VSwitch S G → Type 0
  HasHandled now none s s' = Dispatches now [] 1 s s'
  HasHandled now (some cs) s s' = Dispatches now cs 0 s s'

  HasHandled-behind :
      (now : ℤ) (plan : Option (List ScheduledDelivery)) (a b c : VSwitch S G)
      → Dispatches now [] 0 a b
      → HasHandled now plan b c
      → HasHandled now plan a c
  HasHandled-behind now none a b c h k = Dispatches-trans now [] [] 0 1 a b c h k
  HasHandled-behind now (some cs) a b c h k = Dispatches-trans now [] cs 0 0 a b c h k

  -- The copies of a well-formed frame, once its sender is in the table: none for one that is blocked
  -- or for an unknown address, else those that are decided for each of its destinations.
  abbrev pub frame_copies :
      MacTable → Text → EthernetFrame → Endpoint → FaultDecision → Option (List ScheduledDelivery)
  frame_copies t frame_data frame sender d =
      let table = (insert t frame.src_mac sender).0 in
      if is_blocked d then none else elim (lookup table frame.dst_mac) [
        | some to ↦ some (addressed frame_data (copies net gates d) to)
        | none ↦
            if is_broadcast frame.dst_mac
            then some (
                broadcast frame_data (copies net gates d)
                  (get_all_endpoints_except table frame.src_mac))
            else none
      ]

  admit-HasHandled :
      (s : VSwitch S G) (frame_data : Text) (frame : EthernetFrame) (sender : Endpoint)
      (d : FaultDecision) (now : ℤ)
      → HasHandled now
          (frame_copies s.mac_table frame_data frame sender d)
          s
          (admit net gates s frame_data frame sender d now)
  unfolding admit schedule
  admit-HasHandled s frame_data frame sender d now = elim (Bool-cases (is_blocked d)) [
    | inl blocked ↦ rw blocked (lost s s (Dispatches-refl now s))
    | inr through ↦
        let learned = learn net gates s frame.src_mac sender in
        let same = learn-Dispatches now s frame.src_mac sender in
        elim (Option-cases (lookup learned.mac_table frame.dst_mac)) [
          | inr (to, known) ↦
              rw (through, known)
                (Dispatches-trans now [] (addressed frame_data (copies net gates d) to) 0 0 s
                  learned _ same
                  (schedule_copies-Dispatches now frame_data to (copies net gates d) learned))
          | inl unknown ↦ elim (Bool-cases (is_broadcast frame.dst_mac)) [
            | inl everyone ↦
                let endpoints = get_all_endpoints_except learned.mac_table frame.src_mac in
                rw (through, unknown, everyone)
                  (Dispatches-trans now [] (broadcast frame_data (copies net gates d) endpoints) 0 0
                    s learned _ same
                    (Dispatches-trans now [] (broadcast frame_data (copies net gates d) endpoints) 0
                      0 learned _ _ (quiet-Dispatches now _ _ refl refl refl refl)
                      (schedule_all-Dispatches frame_data endpoints d now
                        (record learned { metrics = record_broadcast learned.metrics }))))
            | inr nobody ↦
                rw (through, unknown, nobody)
                  (lost s _ (
                    Dispatches-trans now [] [] 0 0 s learned
                      (record learned { metrics = record_unknown_unicast learned.metrics }) same
                      (quiet-Dispatches now _ _ refl refl refl refl)))
          ]
        ]
  ]
    where
      lost :
          (a b : VSwitch S G)
          → Dispatches now [] 0 a b
          → Dispatches now [] 1 a (record b { metrics = record_drop b.metrics })
      lost a b h = record {
        socket = h.socket;
        forwarded = h.forwarded;
        dropped = omega (arith, h.dropped);
        pending = h.pending;
      }

  -- A malformed or blocked frame and one to an unknown address count as one packet dropped, and
  -- nothing is sent or deferred. Of any other the copies decided for each of its destinations go
  -- where they are due: those due by now are sent in this order, each counted as forwarded if the
  -- socket takes it and as dropped if not (the counters are 64 bits wide), and the rest wait behind
  -- what waited before.
  pub process_frame-accounted :
      (s : VSwitch S G) (frame_data : Text) (sender : Endpoint) (now : ℤ)
      → HasHandled now
          (elim (try_parse frame_data) [
            | unexpected _ ↦ none
            | ok frame ↦
                frame_copies s.mac_table frame_data frame sender
                  (inspect net gates s frame_data sender now).1
          ])
          s
          (process_frame net gates s frame_data sender now)
  unfolding process_frame
  process_frame-accounted s frame_data sender now = elim (Expected-cases (try_parse frame_data)) [
    | inr (e, malformed) ↦
        rw (malformed, process_frame)
          (record {
            socket = refl;
            forwarded = omega arith;
            dropped = omega arith;
            pending = sym (append_nil s.pending);
          })
    | inl (frame, parsed) ↦
        let judged = inspect net gates s frame_data sender now in
        rw (parsed, process_frame)
          (HasHandled-behind now (frame_copies s.mac_table frame_data frame sender judged.1) s _ _
            (quiet-Dispatches now _ _ refl refl refl refl)
            (admit-HasHandled
              (record s {
                metrics = record_received s.metrics (length frame_data);
                gate = judged.0;
              })
              frame_data frame sender judged.1 now))
  ]
