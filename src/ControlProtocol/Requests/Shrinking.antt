-- ===== src/ControlProtocol/Requests/Shrinking.antt =====
-- How much input the members of a request and of its parameters leave.
use packet_switch.Json.{
  follow, read_string, member_round, read_members, read_uint, pure, read_bool, consume, accept,
  read_characters, repeat, read_character,
}
use packet_switch.Json.Loops.{Below, follow-Below, Below-mono, repeat-Below, repeat-fuel}
use packet_switch.Json.Shrinking.{
  member_round-Consumes, choice-Below, read_bool-Below, read_uint-Below, consume-Below,
  read_string-Below, if-Below, accept_lem, read_character-Consumes,
}
use packet_switch.ControlProtocol.Requests.{
  RequestScan, request_member, parameter_member, read_parameters, read_command, read_backend,
  read_milliseconds, known, backend_named, command_named,
}
use packet_switch.Prelude.Texts.{Text, text_eq, ascii}
use packet_switch.Prelude.{
  ℕ, Option, Bool, suc, length, Expected-cases, some, ◌^◌, ◌-◌, arith, none, inl, ◌&&◌, not, ◌<◌,
  ltb, inr, ◌≡◌, [],
}
use packet_switch.Prelude.Int.{ℤ}

text-Below :
    (t : Text) (f : Text → RequestScan)
    → Below (suc (length t)) (follow (read_string t) (λ v. pure (f v)))
text-Below t f =
    follow-Below (read_string t) _ (Below-mono (read_string t) (omega arith) (read_string-Below t))
      (λ v rest h. h)

number-Below :
    (largest : ℕ) (t : Text) (f : ℕ → RequestScan)
    → Below (suc (length t)) (follow (read_uint largest t) (λ v. pure (f v)))
number-Below largest t f =
    follow-Below (read_uint largest t) _ (read_uint-Below largest t) (λ v rest h. h)

bool-Below :
    (t : Text) (f : Bool → RequestScan)
    → Below (suc (length t)) (follow (read_bool t) (λ v. pure (f v)))
bool-Below t f = follow-Below (read_bool t) _ (read_bool-Below t) (λ v rest h. h)

known-Below : {A : Type 0} (o : Option A) (t : Text) → Below (suc (length t)) (known o t)
known-Below none t = tt
known-Below (some a) t = omega arith

read_command-Below : (t : Text) → Below (suc (length t)) (read_command t)
unfolding read_command
read_command-Below t =
    follow-Below (read_string t) _ (Below-mono (read_string t) (omega arith) (read_string-Below t))
      (λ v rest h. Below-mono (known (command_named v) rest) h (known-Below (command_named v) rest))

read_backend-Below : (t : Text) → Below (suc (length t)) (read_backend t)
unfolding read_backend
read_backend-Below t =
    follow-Below (read_string t) _ (Below-mono (read_string t) (omega arith) (read_string-Below t))
      (λ v rest h. Below-mono (known (backend_named v) rest) h (known-Below (backend_named v) rest))

read_milliseconds-Below : (t : Text) → Below (suc (length t)) (read_milliseconds t)
unfolding read_milliseconds
read_milliseconds-Below t = elim (Expected-cases (read_uint (2 ^ 64 - 1) t)) [
  | inl ((n, rest), e) ↦
      let below : length rest < suc (length t) = rw e at (read_uint-Below (2 ^ 64 - 1) t) in
      rw (e, read_milliseconds) (if-Below _ (ltb (2 ^ 63 - 1) n) _ _ tt below)
  | inr (x, e) ↦ rw (e, read_milliseconds) tt
]

duration-Below :
    (t : Text) (f : ℤ → RequestScan)
    → Below (suc (length t)) (follow (read_milliseconds t) (λ v. pure (f v)))
duration-Below t f =
    follow-Below (read_milliseconds t) _ (read_milliseconds-Below t) (λ v rest h. h)

pub parameter_member-Below :
    (key : Text) (s : RequestScan) (t : Text) → Below (suc (length t)) (parameter_member key s t)
unfolding parameter_member
parameter_member-Below key s t =
    choice-Below _ (text_eq key (ascii "topology_path") && not s.parameters.topology_path) _ _ t
      (text-Below t _)
      (choice-Below _ (text_eq key (ascii "scenario") && not s.parameters.scenario) _ _ t
        (text-Below t _)
        (choice-Below _ (text_eq key (ascii "backend") && not s.parameters.backend) _ _ t
          (follow-Below (read_backend t) _ (read_backend-Below t) (λ v rest h. h))
          (choice-Below _ (text_eq key (ascii "generator") && not s.parameters.generator) _ _ t
            (text-Below t _)
            (choice-Below _ (text_eq key (ascii "batch_size") && not s.parameters.batch_size) _ _ t
              (number-Below (2 ^ 32 - 1) t _)
              (choice-Below _
                (text_eq key (ascii "duration_seconds") && not s.parameters.duration_seconds) _ _ t
                (number-Below (2 ^ 32 - 1) t _)
                (choice-Below _ (text_eq key (ascii "seed") && not s.parameters.seed) _ _ t
                  (number-Below (2 ^ 64 - 1) t _)
                  (choice-Below _ (text_eq key (ascii "packets") && not s.parameters.packet_count) _
                    _ t (number-Below (2 ^ 64 - 1) t _)
                    (choice-Below _
                      (text_eq key (ascii "frame_size") && not s.parameters.frame_size) _ _ t
                      (number-Below (2 ^ 32 - 1) t _)
                      (choice-Below _ (text_eq key (ascii "port_id") && not s.parameters.port_id) _
                        _ t (text-Below t _)
                        (choice-Below _
                          (text_eq key (ascii "first_endpoint") && not s.parameters.first_endpoint)
                          _ _ t (text-Below t _)
                          (choice-Below _
                            (text_eq key (ascii "second_endpoint")
                              && not s.parameters.second_endpoint)
                            _ _ t (text-Below t _)
                            (choice-Below _
                              (text_eq key (ascii "latency_ms") && not s.parameters.latency) _ _ t
                              (duration-Below t _)
                              (choice-Below _
                                (text_eq key (ascii "jitter_ms") && not s.parameters.jitter) _ _ t
                                (duration-Below t _)
                                (choice-Below _
                                  (text_eq key (ascii "loss_basis_points") && not s.parameters.loss)
                                  _ _ t (number-Below (2 ^ 32 - 1) t _)
                                  (choice-Below _
                                    (text_eq key (ascii "duplication_basis_points")
                                      && not s.parameters.duplication)
                                    _ _ t (number-Below (2 ^ 32 - 1) t _)
                                    (choice-Below _
                                      (text_eq key (ascii "bandwidth_bits_per_second")
                                        && not s.parameters.bandwidth)
                                      _ _ t (number-Below (2 ^ 64 - 1) t _)
                                      (choice-Below _
                                        (text_eq key (ascii "blackhole")
                                          && not s.parameters.blackhole)
                                        _ _ t (bool-Below t _)
                                        (choice-Below _
                                          (text_eq key (ascii "isolated")
                                            && not s.parameters.isolated)
                                          _ _ t (bool-Below t _) tt))))))))))))))))))

pub read_parameters-Below :
    (s : RequestScan) (t : Text) → Below (suc (length t)) (read_parameters s t)
unfolding read_parameters read_members
read_parameters-Below s t =
    follow-Below (consume b'{' t) _
      (Below-mono (consume b'{' t) (omega arith) (consume-Below b'{' t))
      (λ _ u h.
        follow-Below (accept b'}' u) _
          (Below-mono (accept b'}' u) (omega arith) (accept_lem b'}' u))
          (λ empty v k. choice-Below _ empty _ _ v k (
            Below-mono (read_members parameter_member s v) (omega arith) (
              repeat-Below (member_round parameter_member)
                (member_round-Consumes parameter_member parameter_member-Below) (suc (length v)) s
                v))))

pub request_member-Below :
    (key : Text) (s : RequestScan) (t : Text) → Below (suc (length t)) (request_member key s t)
unfolding request_member
request_member-Below key s t =
    choice-Below _ (text_eq key (ascii "api_version") && not s.has_api_version) _ _ t
      (number-Below (2 ^ 32 - 1) t _)
      (choice-Below _ (text_eq key (ascii "request_id") && not s.has_request_id) _ _ t
        (text-Below t _)
        (choice-Below _ (text_eq key (ascii "command") && not s.has_command) _ _ t
          (follow-Below (read_command t) _ (read_command-Below t) (λ v rest h. h))
          (choice-Below _ (text_eq key (ascii "topology_revision") && not s.has_topology_revision) _
            _ t (number-Below (2 ^ 64 - 1) t _)
            (choice-Below _ (text_eq key (ascii "parameters") && not s.has_parameters) _ _ t
              (follow-Below (read_parameters s t) _ (read_parameters-Below s t) (λ v rest h. h))
              tt))))

-- A loop of the request parser with any fuel above the length of its input reads what the parser
-- reads: the members of a request, those of its parameters, and the characters of a string.
pub read_members_fuel :
    (fuel : ℕ) (s : RequestScan) (t : Text)
    → length t < fuel
    → (repeat (member_round request_member) fuel s t ≡ read_members request_member s t)
      × (repeat (member_round parameter_member) fuel s t ≡ read_members parameter_member s t)
      × (repeat read_character fuel [] t ≡ read_characters t)
unfolding read_members read_characters
read_members_fuel fuel s t h = (
  repeat-fuel (member_round request_member)
      (member_round-Consumes request_member request_member-Below) fuel (suc (length t)) s t h
      (omega arith),
  repeat-fuel (member_round parameter_member)
      (member_round-Consumes parameter_member parameter_member-Below) fuel (suc (length t)) s t h
      (omega arith),
  repeat-fuel read_character read_character-Consumes fuel (suc (length t)) [] t h (omega arith),
)
