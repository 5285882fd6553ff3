-- ===== src/PacketParser/Bounds.antt =====
-- The reads of the parser of src/packet_analyzer.cpp and the bounds of the frame.
use packet_switch.Prelude.{
  ℕ, refl, Option, Bool, is_some, ◌+◌, false≢true, ◌<◌, ◌≡◌, length, ◌≤◌, some, true, ◌%◌, ◌==◌,
  Option-cases, get_elem?, none, arith, ltb, false, ◌-◌, ◌^◌, ◌&&◌, inl, ◌/◌, ◌∷◌, ◌||◌,
  if◌then◌else◌, inr, ◌*◌, suc, [], zero,
}
use packet_switch.Frame.{◌>>=◌}
use packet_switch.Prelude.Texts.{Text}
use packet_switch.PacketParser.{
  parse_ipv4, parse_transport, read_network_u32, parse_ipv4_fields, is_ipv4_header, parse_udp,
  parse_tcp, parse_packet, read_network_u16, ipv4_type,
}
use packet_switch.Packet.{PacketView, PacketAnalysis, IsView}

-- A result was computed, without a read outside.
abbrev pub Safe : {A : Type 0} → Option A → Type 0
Safe r = is_some r ≡ true

pub Safe-bind :
    {A B : Type 0} (r : Option A) (f : A → Option B)
    → Safe r
    → ((a : A) → Safe (f a))
    → Safe (r >>= f)
Safe-bind none f h k = absurd (false≢true h)
Safe-bind (some a) f h k = k a

pub Safe-if :
    {A : Type 0} (b : Bool) (r s : Option A)
    → (b ≡ true → Safe r)
    → (b ≡ false → Safe s)
    → Safe (if b then r else s)
Safe-if true r s h k = h refl
Safe-if false r s h k = k refl

pub read_byte-Safe : (d : Text) (i : ℕ) → i < length d → Safe (get_elem? d i)
read_byte-Safe [] i h = absurd (omega arith)
read_byte-Safe (x ∷ d) zero h = refl
read_byte-Safe (x ∷ d) (suc i) h = read_byte-Safe d i (omega arith)

read_u16-Safe : (d : Text) (i : ℕ) → i + 1 < length d → Safe (read_network_u16 d i)
unfolding read_network_u16
read_u16-Safe d i h =
    Safe-bind (get_elem? d i) _ (read_byte-Safe d i (omega arith))
      (λ high. Safe-bind (get_elem? d (i + 1)) _ (read_byte-Safe d (i + 1) h) (λ low. refl))

read_u32-Safe : (d : Text) (i : ℕ) → i + 3 < length d → Safe (read_network_u32 d i)
unfolding read_network_u32
read_u32-Safe d i h = Safe-bind (get_elem? d i) _ (read_byte-Safe d i (omega arith)) (λ b0.
    Safe-bind (get_elem? d (i + 1)) _ (read_byte-Safe d (i + 1) (omega arith)) (λ b1.
      Safe-bind (get_elem? d (i + 2)) _ (read_byte-Safe d (i + 2) (omega arith))
        (λ b2. Safe-bind (get_elem? d (i + 3)) _ (read_byte-Safe d (i + 3) h) (λ b3. refl))))

parse_udp-Safe :
    (d : Text) (start size : ℕ) (a : PacketAnalysis)
    → start + size ≤ length d
    → Safe (parse_udp d start size a)
unfolding parse_udp
parse_udp-Safe d start size a h =
    Safe-if (ltb size 8) _ _ (λ short. refl)
      (λ fits.
        Safe-bind (read_network_u16 d (start + 4)) _ (read_u16-Safe d (start + 4) (ground arith))
          (λ n.
            Safe-bind (read_network_u16 d start) _ (read_u16-Safe d start (ground arith)) (λ source.
              Safe-bind (read_network_u16 d (start + 2)) _
                (read_u16-Safe d (start + 2) (ground arith))
                (λ destination. Safe-if (ltb n 8 || ltb size n) _ _ (λ bad. refl) (λ good. refl)))))

parse_tcp-Safe :
    (d : Text) (start size : ℕ) (a : PacketAnalysis)
    → start + size ≤ length d
    → Safe (parse_tcp d start size a)
unfolding parse_tcp
parse_tcp-Safe d start size a h =
    Safe-if (ltb size 20) _ _ (λ short. refl)
      (λ fits.
        Safe-bind (get_elem? d (start + 12)) _ (read_byte-Safe d (start + 12) (ground arith))
          (λ words.
            Safe-bind (read_network_u16 d start) _ (read_u16-Safe d start (ground arith)) (λ source.
              Safe-bind (read_network_u16 d (start + 2)) _
                (read_u16-Safe d (start + 2) (ground arith))
                (λ destination.
                  Safe-bind (get_elem? d (start + 13)) _
                    (read_byte-Safe d (start + 13) (ground arith))
                    (λ flags.
                      Safe-if (ltb (words / 2 ^ 4 * 4) 20 || ltb size (words / 2 ^ 4 * 4)) _ _
                        (λ bad. refl) (λ good. refl))))))

parse_transport-Safe :
    (d : Text) (start size : ℕ) (a : PacketAnalysis)
    → start + size ≤ length d
    → Safe (parse_transport d start size a)
unfolding parse_transport
parse_transport-Safe d start size a h =
    Safe-if (a.protocol == 17) _ _ (λ udp. parse_udp-Safe d start size a h)
      (λ other.
        Safe-if (a.protocol == 6) _ _ (λ tcp. parse_tcp-Safe d start size a h)
          (λ rest. Safe-if (a.protocol == 1 && ltb size 4) _ _ (λ bad. refl) (λ good. refl)))

parse_ipv4_fields-Safe :
    (d : Text) (header_size total_size : ℕ) (a : PacketAnalysis)
    → 34 ≤ length d
    → header_size ≤ total_size
    → 14 + total_size ≤ length d
    → Safe (parse_ipv4_fields d header_size total_size a)
unfolding parse_ipv4_fields
parse_ipv4_fields-Safe d header_size total_size a h le fits =
    Safe-bind (read_network_u32 d 26) _ (read_u32-Safe d 26 (omega arith)) (λ source.
      Safe-bind (read_network_u32 d 30) _ (read_u32-Safe d 30 (omega arith)) (λ destination.
        Safe-bind (get_elem? d 23) _ (read_byte-Safe d 23 (omega arith)) (λ protocol.
          Safe-bind (read_network_u16 d 20) _ (read_u16-Safe d 20 (omega arith)) (λ fragment.
            Safe-if (fragment % 2 ^ 13 == 0) _ _
              (λ first.
                parse_transport-Safe d (14 + header_size) (total_size - header_size) _
                  (omega arith))
              (λ later. refl)))))

-- The checks of the header keep header and packet inside the payload.
is_ipv4_header-bounds :
    (first total_size payload_size : ℕ)
    → is_ipv4_header first total_size payload_size ≡ true
    → (20 ≤ first % 2 ^ 4 * 4) × (first % 2 ^ 4 * 4 ≤ total_size) × (total_size ≤ payload_size)
is_ipv4_header-bounds first total_size payload_size h = ground arith

parse_ipv4-Safe : (d : Text) (a : PacketAnalysis) → 14 ≤ length d → Safe (parse_ipv4 d a)
unfolding parse_ipv4
parse_ipv4-Safe d a h =
    Safe-if (ltb (length d - 14) 20) _ _ (λ short. refl)
      (λ fits. Safe-bind (get_elem? d 14) _ (read_byte-Safe d 14 (ground arith)) (λ first.
        Safe-bind (read_network_u16 d 16) _ (read_u16-Safe d 16 (ground arith)) (λ total_size.
          Safe-if (is_ipv4_header first total_size (length d - 14)) _ _
            (λ good.
              let (_, le, within) = is_ipv4_header-bounds first total_size (length d - 14) good in
              parse_ipv4_fields-Safe d (first % 2 ^ 4 * 4) total_size a (ground arith) le
                (omega arith))
            (λ bad. refl))))

-- No read leaves the frame, whatever its bytes are: the parser gives a result for every view.
pub parse_packet-Safe : (v : PacketView) → IsView v → Safe (parse_packet v)
unfolding parse_packet
parse_packet-Safe v view = elim (Option-cases v.bytes) [
  | inl null ↦ rw null refl
  | inr (d, at) ↦
      rw (at, parse_packet)
        (Safe-if (ltb v.size 14) _ _ (λ short. refl)
          (λ fits.
            let size = view d at in
            Safe-bind (read_network_u16 d 12) _ (read_u16-Safe d 12 (ground arith)) (λ ethertype.
              Safe-if (ethertype == ipv4_type) _ _
                (λ ip.
                  Safe-bind (parse_ipv4 d _) _ (parse_ipv4-Safe d _ (ground arith))
                    (λ result. refl))
                (λ other. refl))))
]
