-- ===== src/SwitchSupervisor.antt =====
-- src/switch_supervisor.cpp and include/wirelab/switch_supervisor.hpp: the frame gate that puts a live
-- switch under analysis. The control server is an interface, and so is the analyzer, which may be
-- another than the one that is built in. The map of the bindings is a list, newest last; its order is
-- not specified, and `bindings` sorts what it lists.
use packet_switch.Prelude.{
  ℕ, List, Option, none, if◌then◌else◌, some, ◌++◌, value_or, not, ltb, length, Bool, map, ◌∷◌,
  ◌==◌, ◌&&◌, ◌%◌, ◌||◌, [], select, ◌^◌, leb, unexpected, ok, ◌*◌, ◌+◌, ◌-◌,
}
pub mod Bindings
pub mod Accounts
pub mod Containment
pub mod Supervised
use packet_switch.PacketAnalyzer.{analyze}
use packet_switch.AnalysisPipeline
use packet_switch.Prelude.Texts.{Text, is_empty, text_lt, ascii, text_discrete}
use packet_switch.MacTable.{Endpoint}
use packet_switch.AnalysisPipeline.{AnalysisPipeline, attach, AnalysisOutcome}
use packet_switch.Frame.{MacAddress}
use packet_switch.VSwitch.{FrameGate, at_once, is_blocked}
use packet_switch.Packet.{PacketView}
use packet_switch.Prelude.Int.{ℤ, pos, to_u64, lezb, ◌-ℤ◌}
use packet_switch.FaultEngine.{FaultDecision}
use packet_switch.Aggregator.{AnalysisBatch, no_batch, add_u64}
use packet_switch.TopologyController.{
  TopologyController, evaluate_port, port_id_at, is_zero_duration, nanoseconds,
}
use packet_switch.Prelude.Sorting.{sort}
use packet_switch.Prelude.Decimal.{decimal}
use packet_switch.Prelude.Maps.{find, assign}

pub record SwitchSupervisorConfig : Type 0 where
  pub tick_interval : ℤ
  pub max_batch_frames : ℕ

pub record Binding : Type 0 where
  pub ingress_port : ℕ
  pub port_id : Text

pub record BatchedFrame : Type 0 where
  pub bytes : Text
  pub ingress_port : ℕ

pub record SupervisionSnapshot : Type 0 where
  pub analysed_frames : ℕ
  pub blocked_frames : ℕ
  pub bindings : List (Text × Text)

-- What the supervisor uses of a `ControlServer`: serving a command may change the pipeline and the
-- controller, which the server refers to as well.
pub record ControlServer (C : Type 0) : Type 0 where
  pub poll : C → AnalysisPipeline → TopologyController → C × AnalysisPipeline × TopologyController
  pub publish_analysis : C → AnalysisOutcome → C
  pub publish_supervision : C → SupervisionSnapshot → C

-- `PacketAnalyzer`.
pub record PacketAnalyzer (A : Type 0) : Type 0 where
  pub analyze : A → List PacketView → A × AnalysisBatch

pub record SwitchSupervisor (C A : Type 0) : Type 0 where
  pub pipeline : AnalysisPipeline
  pub controller : TopologyController
  pub config : SwitchSupervisorConfig
  pub control : Option C
  pub analyzer : A
  pub bindings : List (Text × Binding)
  pub batch : List BatchedFrame
  pub last_tick : ℤ
  pub analysed_frames : ℕ
  pub blocked_frames : ℕ
  pub published_analysed_frames : ℕ
  pub published_blocked_frames : ℕ
  pub published_bindings : ℕ

unfoldable pub init :
    {C A : Type 0}
    → AnalysisPipeline
    → TopologyController
    → SwitchSupervisorConfig
    → A
    → SwitchSupervisor C A
init pipeline controller config analyzer = record {
  pipeline = attach pipeline;
  controller = controller;
  config = config;
  control = none;
  analyzer = analyzer;
  bindings = [];
  batch = [];
  last_tick = pos 0;
  analysed_frames = 0;
  blocked_frames = 0;
  published_analysed_frames = 0;
  published_blocked_frames = 0;
  published_bindings = 0;
}

-- `Endpoint::to_string`.
abbrev pub endpoint_to_string : Endpoint → Text
endpoint_to_string e = e.address ++ ascii ":" ++ decimal e.port

-- The text before and after the last colon (`rfind`).
unfoldable pub split_last : Text → Option (Text × Text)
split_last [] = none
split_last (c ∷ text) = elim (split_last text) [
  | some parts ↦ some (c ∷ parts.0, parts.1)
  | none ↦ if c == b':' then some ([], text) else none
]

-- `std::stoul` on a text that begins with digits, as the port of a key does.
unfoldable pub read_port : ℕ → Text → ℕ
read_port value [] = value
read_port value (c ∷ text) =
    let rest = read_port (value * 10 + (c - b'0')) text in
    if leb b'0' c && leb c b'9' then rest else value

-- The endpoint that a key of the bindings was written from.
abbrev pub endpoint_of_key : Text → Endpoint
endpoint_of_key key = elim (split_last key) [
  | none ↦ record { address = key; port = 0 }
  | some parts ↦ record { address = parts.0; port = read_port 0 parts.1 % 2 ^ 16 }
]

abbrev pub view_of : BatchedFrame → PacketView
view_of frame = record {
  bytes = some frame.bytes;
  size = length frame.bytes;
  ingress_port = frame.ingress_port;
}

-- The views point to bytes, so the analyzer reads inside them; the other case cannot come up.
abbrev pub cpu_analyzer : PacketAnalyzer (List MacAddress)
cpu_analyzer = record {
  analyze = λ learned views. value_or (analyze learned views) (learned, no_batch);
}

module _ {C A : Type 0} (server : ControlServer C) (analyzers : PacketAnalyzer A) where
  abbrev pub attach_control : SwitchSupervisor C A → C → SwitchSupervisor C A
  attach_control s control = record s { control = some control }

  unfoldable pub bind : SwitchSupervisor C A → Endpoint → SwitchSupervisor C A × Binding
  bind s sender =
      let key = endpoint_to_string sender in
      let ingress_port : ℕ = length s.bindings % 2 ^ 32 in
      let binding : Binding = record {
        ingress_port = ingress_port;
        port_id = value_or (port_id_at s.controller ingress_port) [];
      } in
      elim (find text_discrete key s.bindings) [
        | some existing ↦ (s, existing)
        | none ↦ (record s { bindings = assign text_discrete key binding s.bindings }, binding)
      ]

  abbrev pub is_bound : Text × Binding → Bool
  is_bound entry = not (is_empty entry.1.port_id)

  -- `bindings`.
  abbrev pub listed_bindings : SwitchSupervisor C A → List (Text × Endpoint)
  listed_bindings s =
      sort (λ left right. text_lt left.0 right.0)
        (map (λ (entry : Text × Binding). (entry.1.port_id, endpoint_of_key entry.0))
          (select is_bound s.bindings))

  abbrev pub supervision_snapshot : SwitchSupervisor C A → SupervisionSnapshot
  supervision_snapshot s = record {
    analysed_frames = s.analysed_frames;
    blocked_frames = s.blocked_frames;
    bindings =
        map (λ (bound : Text × Endpoint). (bound.0, endpoint_to_string bound.1))
          (listed_bindings s);
  }

  -- Called with a control server only.
  unfoldable pub publish : SwitchSupervisor C A → C → SwitchSupervisor C A
  publish s control =
      if not (s.analysed_frames == s.published_analysed_frames)
        || not (s.blocked_frames == s.published_blocked_frames)
        || not (length s.bindings == s.published_bindings)
      then record s {
        published_analysed_frames = s.analysed_frames;
        published_blocked_frames = s.blocked_frames;
        published_bindings = length s.bindings;
        control = some (server.publish_supervision control (supervision_snapshot s));
      }
      else record s { control = some control }

  abbrev pub poll : SwitchSupervisor C A → Option C → SwitchSupervisor C A
  poll s none = s
  poll s (some control) =
      let served = server.poll control s.pipeline s.controller in
      record s { control = some served.0; pipeline = served.1; controller = served.2 }

  abbrev pub is_due : SwitchSupervisor C A → ℤ → Bool
  is_due s now =
      is_zero_duration s.last_tick || lezb (nanoseconds s.config.tick_interval) (now -ℤ s.last_tick)

  -- The end of `tick`; a detector that throws skips it.
  abbrev pub report :
      SwitchSupervisor C A → Option C → Option AnalysisOutcome → SwitchSupervisor C A
  report s none outcome = s
  report s (some control) none = s
  report s (some control) (some outcome) = publish s (server.publish_analysis control outcome)

  -- `tick` from the analysis on.
  unfoldable pub flush : SwitchSupervisor C A → ℤ → SwitchSupervisor C A
  flush s now =
      let analysis = analyzers.analyze s.analyzer (map view_of s.batch) in
      let out =
        AnalysisPipeline.evaluate s.pipeline s.controller analysis.1.packets (to_u64 now) now in
      let analysed : SwitchSupervisor C A = record s {
        last_tick = now;
        analyzer = analysis.0;
        analysed_frames = add_u64 s.analysed_frames analysis.1.received_packets;
        batch = [];
        pipeline = out.0;
        controller = out.1;
      } in
      report analysed s.control out.2

  unfoldable pub tick : SwitchSupervisor C A → ℤ → SwitchSupervisor C A
  tick s now =
      let polled = poll s s.control in
      if not (is_due polled now) && ltb (length polled.batch) polled.config.max_batch_frames
      then polled
      else flush polled now

  -- The frame is recorded while there is room, and a full batch is analysed at once.
  unfoldable pub note_frame : SwitchSupervisor C A → Text → ℕ → ℤ → SwitchSupervisor C A
  note_frame s frame_data ingress_port arrival =
      let noted : SwitchSupervisor C A =
        if ltb (length s.batch) s.config.max_batch_frames
        then record s {
          batch = s.batch ++ record { bytes = frame_data; ingress_port = ingress_port } ∷ [];
        }
        else s in
      if leb noted.config.max_batch_frames (length noted.batch) then tick noted arrival else noted

  -- `inspect` from the check of the port on.
  unfoldable pub decide : SwitchSupervisor C A → Text → ℕ → ℤ → SwitchSupervisor C A × FaultDecision
  decide s port_id frame_bytes arrival =
      let out = evaluate_port s.controller port_id frame_bytes arrival in
      let judged : SwitchSupervisor C A = record s { controller = out.0 } in
      if is_empty port_id then (s, at_once arrival) else elim out.1 [
        | unexpected _ ↦ (judged, at_once arrival)
        | ok decision ↦ (
          if is_blocked decision
              then record judged { blocked_frames = add_u64 s.blocked_frames 1 }
              else judged,
          decision,
        )
      ]

  unfoldable pub inspect :
      SwitchSupervisor C A → Text → Endpoint → ℤ → SwitchSupervisor C A × FaultDecision
  inspect s frame_data sender arrival =
      let bound = bind s sender in
      decide (note_frame bound.0 frame_data bound.1.ingress_port arrival) bound.1.port_id
        (length frame_data) arrival

  -- The supervisor as the gate of a switch.
  abbrev pub gate : FrameGate (SwitchSupervisor C A)
  gate = record { inspect = inspect; tick = tick; tick_interval = λ s. s.config.tick_interval }
