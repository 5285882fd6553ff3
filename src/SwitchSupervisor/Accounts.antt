-- ===== src/SwitchSupervisor/Accounts.antt =====
-- The frames that a supervisor of src/switch_supervisor.cpp notes and analyses.
use packet_switch.Prelude.{
  ℕ, List, Option, [], ◌∷◌, suc, ◌+◌, ◌≡◌, arith, map, length, ◌<◌, ◌%◌, ◌^◌, some, Option-cases,
  inl, false≢true, ap, is_some, sym, ◌∙◌, inr, refl, none, Bool-cases, not, ◌&&◌, ltb, value_or,
  Expected-cases, ◌++◌, true, length-append, leb,
}
use packet_switch.PacketAnalyzer.{analyze, parse_views}
use packet_switch.Prelude.Texts.{Text, text_discrete, is_empty}
use packet_switch.SwitchSupervisor.{
  PacketAnalyzer, SwitchSupervisor, ControlServer, cpu_analyzer, flush, publish, BatchedFrame, tick,
  inspect, view_of, poll, bind, decide, report, is_due, endpoint_to_string, note_frame,
}
use packet_switch.MacTable.{Endpoint}
use packet_switch.Packet.{PacketAnalysis}
use packet_switch.Prelude.Int.{ℤ, to_u64}
use packet_switch.PacketParser.{parse_packet}
use packet_switch.AnalysisPipeline.{AnalysisOutcome}
use packet_switch.PacketParser.Bounds.{parse_packet-Safe}
use packet_switch.Ranking.Counting.{aggregate-counted}
use packet_switch.Prelude.Maps.{find}
use packet_switch.Aggregator.{add_u64}
use packet_switch.TopologyController.{evaluate_port}
use packet_switch.VSwitch.{is_blocked}

-- An analyzer counts the frames that it is given.
abbrev pub IsCounting : {A : Type 0} → PacketAnalyzer A → Type 0
IsCounting {A} analyzers =
    (a : A) (frames : List BatchedFrame)
    → (analyzers.analyze a (map view_of frames)).1.received_packets ≡ length frames % 2 ^ 64

parse_views-length :
    (frames : List BatchedFrame)
    → (ps : List (PacketAnalysis × ℕ)) × (parse_views (map view_of frames) ≡ some ps)
      × (length ps ≡ length frames)
unfolding parse_views
parse_views-length [] = ([], refl, refl)
parse_views-length (frame ∷ frames) =
    let (ps, rest, long) = parse_views-length frames in
    elim (Option-cases (parse_packet (view_of frame))) [
      | inl refused ↦ absurd (
          false≢true (
            ap is_some (sym refused)
            ∙ parse_packet-Safe (view_of frame)
                (λ d at. ap (λ o. length (value_or o [])) (sym at))))
      | inr (a, first) ↦ ((a, length frame.bytes) ∷ ps, rw (first, rest) refl, omega (arith, long))
    ]

-- The built-in analyzer.
pub cpu_analyzer-IsCounting : IsCounting cpu_analyzer
unfolding analyze
cpu_analyzer-IsCounting learned frames =
    let (ps, parsed, long) = parse_views-length frames in
    rw parsed ((aggregate-counted learned ps).0 ∙ ap (λ n. n % 2 ^ 64) long)

-- What the switch asks of its gate.
pub data GateCall : Type 0 where
  inspecting : Text → Endpoint → ℤ → GateCall
  ticking : ℤ → GateCall

abbrev pub inspections : List GateCall → ℕ
inspections [] = 0
inspections (inspecting frame_data sender arrival ∷ calls) = suc (inspections calls)
inspections (ticking now ∷ calls) = inspections calls

inspections-cons :
    (c : GateCall) (calls : List GateCall)
    → inspections (c ∷ calls) ≡ inspections (c ∷ []) + inspections calls
inspections-cons (inspecting frame_data sender arrival) calls = omega arith
inspections-cons (ticking now) calls = omega arith

-- The frames that are noted, analysed or not.
abbrev pub noted_frames : {C A : Type 0} → SwitchSupervisor C A → ℕ
noted_frames s = (s.analysed_frames + length s.batch) % 2 ^ 64

abbrev pub limit : {C A : Type 0} → SwitchSupervisor C A → ℕ
limit s = s.config.max_batch_frames

module _ {C A : Type 0} (server : ControlServer C) (analyzers : PacketAnalyzer A) where
  abbrev pub call : SwitchSupervisor C A → GateCall → SwitchSupervisor C A
  call s (inspecting frame_data sender arrival) =
      (inspect server analyzers s frame_data sender arrival).0
  call s (ticking now) = tick server analyzers s now

  unfoldable pub call_all : SwitchSupervisor C A → List GateCall → SwitchSupervisor C A
  call_all s [] = s
  call_all s (c ∷ calls) = call_all (call s c) calls

  -- Some frames more are noted, and the limit of a batch is the same.
  abbrev HasNoted : ℕ → SwitchSupervisor C A → SwitchSupervisor C A → Type 0
  HasNoted n s t =
      (t.config ≡ s.config) × (noted_frames t ≡ (s.analysed_frames + length s.batch + n) % 2 ^ 64)

  abbrev HasSame : SwitchSupervisor C A → SwitchSupervisor C A → Type 0
  HasSame s t =
      (t.config ≡ s.config) × (t.batch ≡ s.batch) × (t.analysed_frames ≡ s.analysed_frames)

  report-HasSame :
      (s : SwitchSupervisor C A) (control : Option C) (outcome : Option AnalysisOutcome)
      → HasSame s (report server analyzers s control outcome)
  unfolding publish
  report-HasSame s none outcome = (refl, refl, refl)
  report-HasSame s (some control) none = (refl, refl, refl)
  report-HasSame s (some control) (some outcome) = ground arith

  poll-HasSame :
      (s : SwitchSupervisor C A) (control : Option C) → HasSame s (poll server analyzers s control)
  poll-HasSame s none = (refl, refl, refl)
  poll-HasSame s (some control) = (refl, refl, refl)

  bind-HasSame :
      (s : SwitchSupervisor C A) (sender : Endpoint) → HasSame s (bind server analyzers s sender).0
  unfolding bind
  bind-HasSame s sender =
      elim (Option-cases (find text_discrete (endpoint_to_string sender) s.bindings)) [
        | inl new ↦ rw (new, bind) (refl, refl, refl)
        | inr (b, found) ↦ rw (found, bind) (refl, refl, refl)
      ]

  decide-HasSame :
      (s : SwitchSupervisor C A) (port : Text) (size : ℕ) (arrival : ℤ)
      → HasSame s (decide server analyzers s port size arrival).0
  unfolding decide
  decide-HasSame s port size arrival = elim (Bool-cases (is_empty port)) [
    | inl unbound ↦ rw (unbound, decide) (refl, refl, refl)
    | inr bound ↦ elim (Expected-cases (evaluate_port s.controller port size arrival).1) [
      | inr (error, failed) ↦ rw (bound, failed, decide) (refl, refl, refl)
      | inl (decision, judged) ↦ elim (Bool-cases (is_blocked decision)) [
        | inl blocked ↦ rw (bound, judged, blocked, decide) (refl, refl, refl)
        | inr passed ↦ rw (bound, judged, passed, decide) (refl, refl, refl)
      ]
    ]
  ]

  module _ (counting : IsCounting analyzers) where
    flush-HasNoted :
        (s : SwitchSupervisor C A) (now : ℤ)
        → HasNoted 0 s (flush server analyzers s now) × ((flush server analyzers s now).batch ≡ [])
    unfolding flush
    flush-HasNoted s now =
        let analysis = analyzers.analyze s.analyzer (map view_of s.batch) in
        let out =
          packet_switch.AnalysisPipeline.evaluate s.pipeline s.controller analysis.1.packets
            (to_u64 now) now in
        let (config, batch, analysed) =
          report-HasSame
            (record s {
              last_tick = now;
              analyzer = analysis.0;
              analysed_frames = add_u64 s.analysed_frames analysis.1.received_packets;
              batch = [];
              pipeline = out.0;
              controller = out.1;
            })
            s.control out.2 in
        ((config, omega (arith, analysed, ap length batch, counting s.analyzer s.batch)), batch)

    tick-HasNoted :
        (s : SwitchSupervisor C A) (now : ℤ)
        → 0 < limit s
        → HasNoted 0 s (tick server analyzers s now)
          × (length (tick server analyzers s now).batch < limit s)
    unfolding tick
    tick-HasNoted s now some_room =
        let polled = poll server analyzers s s.control in
        let (config, batch, analysed) = poll-HasSame s s.control in
        let ((same, noted), empty) = flush-HasNoted polled now in
        let same_limit : limit polled ≡ limit s = ap (λ c. c.max_batch_frames) config in
        elim (Bool-cases
          (not (is_due server analyzers polled now) && ltb (length polled.batch) (limit polled))) [
            | inl e ↦
                rw (e, tick)
                  (
                    (config, omega (arith, ap length batch, analysed)),
                    ground (arith, e, same_limit),
                  )
            | inr e ↦
                rw (e, tick)
                  (
                    (same ∙ config, omega (arith, noted, ap length batch, analysed)),
                    omega (arith, ap length empty, some_room),
                  )
          ]

    note_frame-HasNoted :
        (s : SwitchSupervisor C A) (frame_data : Text) (port : ℕ) (arrival : ℤ)
        → length s.batch < limit s
        → HasNoted 1 s (note_frame server analyzers s frame_data port arrival)
          × (length (note_frame server analyzers s frame_data port arrival).batch < limit s)
    unfolding note_frame
    note_frame-HasNoted s frame_data port arrival some_room =
        let frame : BatchedFrame = record { bytes = frame_data; ingress_port = port } in
        let noted : SwitchSupervisor C A = record s { batch = s.batch ++ frame ∷ [] } in
        let fits : ltb (length s.batch) (limit s) ≡ true = ground (arith, some_room) in
        let long : length noted.batch ≡ suc (length s.batch) =
          omega (arith, length-append s.batch (frame ∷ [])) in
        let ((config, counted), small) = tick-HasNoted noted arrival (omega (arith, some_room)) in
        elim (Bool-cases (leb (limit s) (length noted.batch))) [
          | inl full ↦ rw (fits, full) ((config, omega (arith, counted, long)), small)
          | inr open_ ↦ rw (fits, open_) ((refl, omega (arith, long)), ground (arith, open_))
        ]

    call-HasNoted :
        (s : SwitchSupervisor C A) (c : GateCall)
        → length s.batch < limit s
        → HasNoted (inspections (c ∷ [])) s (call s c) × (length (call s c).batch < limit s)
    unfolding inspect
    call-HasNoted s (inspecting frame_data sender arrival) small =
        let bound = bind server analyzers s sender in
        let (config, batch, analysed) = bind-HasSame s sender in
        let ((noted_config, counted), less) =
          note_frame-HasNoted bound.0 frame_data bound.1.ingress_port arrival
            (omega (arith, small, ap length batch, ap (λ c. c.max_batch_frames) config)) in
        let noted = note_frame server analyzers bound.0 frame_data bound.1.ingress_port arrival in
        let (last_config, last_batch, last_analysed) =
          decide-HasSame noted bound.1.port_id (length frame_data) arrival in
        (
          (
            last_config ∙ noted_config ∙ config,
            omega (arith, counted, ap length batch, analysed, ap length last_batch, last_analysed),
          ),
          omega (arith, less, ap length last_batch, ap (λ c. c.max_batch_frames) config),
        )
    call-HasNoted s (ticking now) small = tick-HasNoted s now (omega (arith, small))

    -- A supervisor with room in its batch and an analyzer that counts its frames has room after any
    -- calls of the switch, and it has then noted one frame more for each inspection: the frames
    -- analysed and those of the batch are together, modulo 2^64, as many as before and one for each.
    pub call_all-noted :
        (calls : List GateCall) (s : SwitchSupervisor C A)
        → length s.batch < limit s
        → (length (call_all s calls).batch < limit s)
          × (noted_frames (call_all s calls)
              ≡ (s.analysed_frames + length s.batch + inspections calls) % 2 ^ 64)
    unfolding call_all
    call_all-noted [] s small = (small, omega arith)
    call_all-noted (c ∷ calls) s small =
        let ((config, counted), less) = call-HasNoted s c small in
        let same_limit : limit (call s c) ≡ limit s = ap (λ d. d.max_batch_frames) config in
        let (last, total) = call_all-noted calls (call s c) (omega (arith, less, same_limit)) in
        (omega (arith, last, same_limit), omega (arith, counted, total, inspections-cons c calls))
