-- ===== src/PacketParser/Lengths.antt =====
-- The length that `parse_packet` of src/packet_analyzer.cpp notes of a frame.
use packet_switch.Prelude.{
  ℕ, Option, Bool, some, none, if◌then◌else◌, true, ◌≡◌, ltb, false, min, ◌∙◌, ◌^◌, length, ◌==◌,
  ◌-◌, get_elem?, ◌+◌, refl, Option-cases, ◌||◌, inl, inr, ◌/◌, ◌*◌, ◌%◌, ◌&&◌,
}
use packet_switch.Frame.{◌>>=◌}
use packet_switch.Prelude.Texts.{Text}
use packet_switch.Packet.{
  PacketAnalysis, PacketValidity, PacketView, valid, malformed_ethernet, malformed_ipv4,
  malformed_transport,
}
use packet_switch.PacketParser.{
  parse_packet, parse_ipv4, parse_transport, parse_ipv4_fields, judge, parse_udp, parse_tcp,
  read_network_u16, is_ipv4_header, read_network_u32, ipv4_type,
}

-- A value, if there is one, has a property.
abbrev pub Yields : {A : Type 0} → (A → Type 0) → Option A → Type 0
Yields Has none = Unit
Yields Has (some a) = Has a

Yields-bind :
    {A B : Type 0} (Has : B → Type 0) (r : Option A) (f : A → Option B)
    → ((a : A) → Yields Has (f a))
    → Yields Has (r >>= f)
Yields-bind Has none f h = tt
Yields-bind Has (some a) f h = h a

Yields-if :
    {A : Type 0} (Has : A → Type 0) (b : Bool) (r s : Option A)
    → Yields Has r
    → Yields Has s
    → Yields Has (if b then r else s)
Yields-if Has true r s h k = h
Yields-if Has false r s h k = k

abbrev IsLong : ℕ → PacketAnalysis × PacketValidity → Type 0
IsLong n (a, v) = a.frame_length ≡ n

module _ (n : ℕ) (d : Text) where
  parse_transport-IsLong :
      (start size : ℕ) (a : PacketAnalysis)
      → a.frame_length ≡ n
      → Yields (IsLong n) (parse_transport d start size a)
  unfolding parse_transport parse_udp parse_tcp
  parse_transport-IsLong start size a h =
      Yields-if (IsLong n) (a.protocol == 17) _ _
        (Yields-if (IsLong n) (ltb size 8) _ _ h (
          Yields-bind (IsLong n) (read_network_u16 d (start + 4)) _ (λ udp_length.
            Yields-bind (IsLong n) (read_network_u16 d start) _ (λ source.
              Yields-bind (IsLong n) (read_network_u16 d (start + 2)) _ (λ destination.
                Yields-if (IsLong n) (ltb udp_length 8 || ltb size udp_length) _ _ h h)))))
        (Yields-if (IsLong n) (a.protocol == 6) _ _
          (Yields-if (IsLong n) (ltb size 20) _ _ h (
            Yields-bind (IsLong n) (get_elem? d (start + 12)) _ (λ words.
              Yields-bind (IsLong n) (read_network_u16 d start) _ (λ source.
                Yields-bind (IsLong n) (read_network_u16 d (start + 2)) _ (λ destination.
                  Yields-bind (IsLong n) (get_elem? d (start + 13)) _ (λ flags.
                    Yields-if (IsLong n)
                      (ltb (words / 2 ^ 4 * 4) 20 || ltb size (words / 2 ^ 4 * 4)) _ _ h h))))))
          (Yields-if (IsLong n) (a.protocol == 1 && ltb size 4) _ _ h h))

  parse_ipv4-IsLong : (a : PacketAnalysis) → a.frame_length ≡ n → Yields (IsLong n) (parse_ipv4 d a)
  unfolding parse_ipv4 parse_ipv4_fields
  parse_ipv4-IsLong a h = Yields-if (IsLong n) (ltb (length d - 14) 20) _ _ h (
      Yields-bind (IsLong n) (get_elem? d 14) _ (λ first.
        Yields-bind (IsLong n) (read_network_u16 d 16) _ (λ total_size.
          Yields-if (IsLong n) (is_ipv4_header first total_size (length d - 14)) _ _
            (Yields-bind (IsLong n) (read_network_u32 d 26) _ (λ source.
              Yields-bind (IsLong n) (read_network_u32 d 30) _ (λ destination.
                Yields-bind (IsLong n) (get_elem? d 23) _ (λ protocol.
                  Yields-bind (IsLong n) (read_network_u16 d 20) _ (λ fragment.
                    Yields-if (IsLong n) (fragment % 2 ^ 13 == 0) _ _
                      (parse_transport-IsLong (14 + first % 2 ^ 4 * 4)
                        (total_size - first % 2 ^ 4 * 4) _ h)
                      h)))))
            h)))

judge-length :
    (result : PacketAnalysis × PacketValidity) → (judge result).frame_length ≡ result.0.frame_length
judge-length (a, valid) = refl
judge-length (a, malformed_ethernet) = refl
judge-length (a, malformed_ipv4) = refl
judge-length (a, malformed_transport) = refl

Yields-judge :
    (n : ℕ) (r : Option (PacketAnalysis × PacketValidity))
    → Yields (IsLong n) r
    → Yields (λ a. a.frame_length ≡ n) (do result ← r; some (judge result))
Yields-judge n none h = tt
Yields-judge n (some result) h = judge-length result ∙ h

-- The parser notes the length of the frame, at most 65535.
pub parse_packet-length :
    (v : PacketView) → Yields (λ a. a.frame_length ≡ min v.size (2 ^ 16 - 1)) (parse_packet v)
unfolding parse_packet
parse_packet-length v = elim (Option-cases v.bytes) [
  | inl null ↦ rw null refl
  | inr (d, at) ↦
      rw (at, parse_packet)
        (Yields-if _ (ltb v.size 14) _ _ refl (
          Yields-bind _ (read_network_u16 d 12) _ (λ ethertype.
            Yields-if _ (ethertype == ipv4_type) _ _
              (Yields-judge (min v.size 65535) (parse_ipv4 d _)
                (parse_ipv4-IsLong (min v.size 65535) d _ refl))
              refl)))
]
