-- ===== src/Pcap/Captures.antt =====
-- The blocks of a pcapng capture, and the readers as a whole.
use packet_switch.Pcap.{
  Section, PcapCapture, view, interface_block, simple_block, read_block, open_section,
  enhanced_block, sized_block, from_bytes, read_classic, block_body, read_blocks, read_u16,
  read_u32, maximum_snaplen, read_timestamp_resolution, PcapPacket, view_of, byte_order,
  from_pcapng_bytes, from_classic_bytes, no_section,
}
use packet_switch.Pcap.Memory.{
  Holds, IsCapture, IsSection, Holds-if, Holds-read, read_u32-Safe, read_u16-Safe, Holds-then,
  read_records-Holds, read_timestamp_resolution-Safe, append-IsIndexed, IsIndexed, IsWithin,
}
use packet_switch.Prelude.Texts.{Text, is_empty}
use packet_switch.Prelude.{
  Bool, ℕ, ◌+◌, ◌≤◌, length, ltb, ◌<◌, ◌||◌, ◌==◌, ◌-◌, arith, suc, false, not, if◌then◌else◌, ◌%◌,
  leb, zero, min, refl, get_elem?, take, List, Option, drop, some, All, ◌≡◌, none, ◌∷◌, [], subst,
}
use packet_switch.Packet.{IsView}
use packet_switch.PacketParser.Bounds.{read_byte-Safe}

-- A block that was read: its packets lie in the buffer, and the next block starts in it as well.
abbrev IsBlock : Text → ℕ → Section × ℕ → Type 0
IsBlock d offset (s, size) = IsSection d s × (12 ≤ size) × (offset + size ≤ length d)

open_section-Holds :
    (d : Text) (offset : ℕ) (s : Section)
    → IsSection d s
    → Holds (IsSection d) (open_section d offset s)
unfolding open_section
open_section-Holds d offset s v =
    Holds-if _ (ltb (length d - offset) 16) _ _ (λ short. tt)
      (λ fits.
        Holds-read _ (read_u32 d (offset + 8) false) _
          (read_u32-Safe d (offset + 8) false (ground arith))
          (λ order.
            Holds-if _ (order == 0x1A2B3C4D) _ _ (λ same. v)
              (λ other. Holds-if _ (order == 0x4D3C2B1A) _ _ (λ swapped. v) (λ unknown. tt))))

interface_block-Holds :
    (d : Text) (body size : ℕ) (s : Section)
    → body + size ≤ length d
    → IsSection d s
    → Holds (IsSection d) (interface_block d body size s)
unfolding interface_block
interface_block-Holds d body size s h v =
    Holds-if _ (ltb size 8) _ _ (λ short. tt)
      (λ fits.
        Holds-read _ (read_u16 d body s.swapped) _ (read_u16-Safe d body s.swapped (ground arith))
          (λ link_type.
            Holds-if _ (not (link_type == 1)) _ _ (λ other. tt)
              (λ ethernet.
                Holds-read _ (read_u32 d (body + 4) s.swapped) _
                  (read_u32-Safe d (body + 4) s.swapped (ground arith))
                  (λ snaplen.
                    Holds-read _ (read_timestamp_resolution d (body + 8) (size - 8) s.swapped) _
                      (read_timestamp_resolution-Safe d (body + 8) (size - 8) s.swapped
                        (ground arith))
                      (λ resolution. v)))))

enhanced_block-Holds :
    (d : Text) (body size : ℕ) (s : Section)
    → body + size ≤ length d
    → IsSection d s
    → Holds (IsSection d) (enhanced_block d body size s)
unfolding enhanced_block
enhanced_block-Holds d body size s h v =
    Holds-if _ (ltb size 20) _ _ (λ short. tt)
      (λ fits.
        Holds-read _ (read_u32 d body s.swapped) _ (read_u32-Safe d body s.swapped (ground arith))
          (λ id.
            Holds-read _ (read_u32 d (body + 4) s.swapped) _
              (read_u32-Safe d (body + 4) s.swapped (ground arith))
              (λ high.
                Holds-read _ (read_u32 d (body + 8) s.swapped) _
                  (read_u32-Safe d (body + 8) s.swapped (ground arith))
                  (λ low.
                    Holds-read _ (read_u32 d (body + 12) s.swapped) _
                      (read_u32-Safe d (body + 12) s.swapped (ground arith))
                      (λ captured.
                        Holds-read _ (read_u32 d (body + 16) s.swapped) _
                          (read_u32-Safe d (body + 16) s.swapped (ground arith))
                          (λ original.
                            Holds-if _ (ltb maximum_snaplen captured) _ _ (λ large. tt)
                              (λ plausible.
                                Holds-if _
                                  (ltb (size - 20) captured
                                    || leb (length s.interface_resolutions) id)
                                  _ _ (λ cut. tt)
                                  (λ whole.
                                    Holds-read _ (get_elem? s.interface_resolutions id) _
                                      (read_byte-Safe s.interface_resolutions id (ground arith))
                                      (λ resolution.
                                        append-IsIndexed (length d) s.capture.packets _ v
                                          (ground arith, ground arith))))))))))

simple_block-Holds :
    (d : Text) (body size : ℕ) (s : Section)
    → body + size ≤ length d
    → IsSection d s
    → Holds (IsSection d) (simple_block d body size s)
unfolding simple_block
simple_block-Holds d body size s h v =
    Holds-if _ (ltb size 4 || is_empty s.interface_resolutions) _ _ (λ short. tt)
      (λ fits.
        Holds-read _ (read_u32 d body s.swapped) _ (read_u32-Safe d body s.swapped (ground arith))
          (λ original.
            let captured =
              if s.capture.snaplen == 0 then original else min original s.capture.snaplen in
            Holds-if _ (ltb maximum_snaplen captured) _ _ (λ large. tt)
              (λ plausible.
                Holds-if _ (ltb (size - 4) captured) _ _ (λ cut. tt)
                  (λ whole.
                    append-IsIndexed (length d) s.capture.packets _ v
                      (ground arith, ground arith)))))

block_body-Holds :
    (block_type : ℕ) (d : Text) (body size : ℕ) (s : Section)
    → body + size ≤ length d
    → IsSection d s
    → Holds (IsSection d) (block_body block_type d body size s)
unfolding block_body
block_body-Holds block_type d body size s h v =
    Holds-if _ (block_type == 1) _ _ (λ e. interface_block-Holds d body size s h v)
      (λ e.
        Holds-if _ (block_type == 6) _ _ (λ f. enhanced_block-Holds d body size s h v)
          (λ f.
            Holds-if _ (block_type == 3) _ _ (λ g. simple_block-Holds d body size s h v) (λ g. v)))

sized_block-Holds :
    (block_type : ℕ) (d : Text) (offset : ℕ) (s : Section)
    → offset + 12 ≤ length d
    → IsSection d s
    → Holds (IsBlock d offset) (sized_block block_type d offset s)
unfolding sized_block
sized_block-Holds block_type d offset s h v =
    Holds-read _ (read_u32 d (offset + 4) s.swapped) _
      (read_u32-Safe d (offset + 4) s.swapped (omega arith))
      (λ n.
        Holds-if _ (ltb n 12 || not (n % 4 == 0) || ltb (length d - offset) n) _ _ (λ bad. tt)
          (λ good.
            let inside : offset + n ≤ length d = ground arith in
            let long : 12 ≤ n = ground arith in
            Holds-then (IsSection d) _ (block_body block_type d (offset + 8) (n - 12) s) _
              (block_body-Holds block_type d (offset + 8) (n - 12) s (omega arith) v)
              (λ s' w.
                Holds-read _ (read_u32 d (offset + n - 4) s'.swapped) _
                  (read_u32-Safe d (offset + n - 4) s'.swapped (omega arith))
                  (λ trailer.
                    Holds-if _ (not (trailer == n)) _ _ (λ other. tt)
                      (λ same. (w, long, inside))))))

read_block-Holds :
    (d : Text) (offset : ℕ) (s : Section)
    → IsSection d s
    → Holds (IsBlock d offset) (read_block d offset s)
unfolding read_block
read_block-Holds d offset s v =
    Holds-if _ (ltb (length d - offset) 12) _ _ (λ short. tt)
      (λ fits.
        let inside : offset + 12 ≤ length d = ground arith in
        Holds-read _ (read_u32 d offset s.swapped) _
          (read_u32-Safe d offset s.swapped (omega arith))
          (λ block_type.
            Holds-if _ (block_type == 0x0A0D0D0A) _ _
              (λ header.
                Holds-then (IsSection d) _ (open_section d offset s) _
                  (open_section-Holds d offset s v)
                  (λ s' w. sized_block-Holds block_type d offset s' inside w))
              (λ other. sized_block-Holds block_type d offset s inside v)))

read_blocks-Holds :
    (fuel : ℕ) (d : Text) (offset : ℕ) (s : Section)
    → offset ≤ length d
    → length d < offset + fuel
    → IsSection d s
    → Holds (IsCapture d) (read_blocks fuel d offset s)
unfolding read_blocks
read_blocks-Holds zero d offset s h k v = absurd (omega arith)
read_blocks-Holds (suc fuel) d offset s h k v =
    Holds-if _ (not (ltb offset (length d))) _ _ (λ end. (refl, v))
      (λ more.
        Holds-then (IsBlock d offset) _ (read_block d offset s) _ (read_block-Holds d offset s v)
          (λ (s', n) (w, long, inside).
            read_blocks-Holds fuel d (offset + n) s' inside (omega arith) w))

read_classic-Holds :
    (order : Bool × Bool) (d : Text) → 24 ≤ length d → Holds (IsCapture d) (read_classic order d)
unfolding read_classic
read_classic-Holds (swapped, nanoseconds) d h =
    Holds-read _ (read_u32 d 16 swapped) _ (read_u32-Safe d 16 swapped (omega arith)) (λ snaplen.
      Holds-read _ (read_u32 d 20 swapped) _ (read_u32-Safe d 20 swapped (omega arith))
        (λ link_type.
          Holds-if _ (not (link_type == 1)) _ _ (λ other. tt)
            (λ ethernet.
              read_records-Holds (suc (length d)) swapped nanoseconds 24 d _ h (omega arith) tt)))

from_classic_bytes-Holds :
    (o : Option (Bool × Bool)) (d : Text)
    → 24 ≤ length d
    → Holds (IsCapture d) (from_classic_bytes o d)
unfolding from_classic_bytes
from_classic_bytes-Holds none d h = tt
from_classic_bytes-Holds (some order) d h = read_classic-Holds order d h

from_pcapng_bytes-Holds : (d : Text) → Holds (IsCapture d) (from_pcapng_bytes d)
unfolding from_pcapng_bytes
from_pcapng_bytes-Holds d =
    read_blocks-Holds (suc (length d)) d 0 no_section (omega arith) (omega arith) tt

-- Reading any bytes ends, without a read outside of them, in an error or in a capture of those bytes
-- whose every packet lies within them and is no longer than the maximum.
pub from_bytes-Holds : (bytes : Text) → Holds (IsCapture bytes) (from_bytes bytes)
unfolding from_bytes
from_bytes-Holds d =
    Holds-if _ (ltb (length d) 4) _ _ (λ short. tt)
      (λ fits.
        Holds-read _ (read_u32 d 0 false) _ (read_u32-Safe d 0 false (ground arith)) (λ magic.
          Holds-if _ (magic == 0x0A0D0D0A) _ _ (λ section. from_pcapng_bytes-Holds d)
            (λ other.
              Holds-if _ (ltb (length d) 24) _ _ (λ short. tt)
                (λ long. from_classic_bytes-Holds (byte_order magic) d (ground arith)))))

-- The bytes that a view borrows are as many as it says.
length-take-drop : (n i : ℕ) (xs : Text) → i + n ≤ length xs → length (take n (drop i xs)) ≡ n
length-take-drop zero i xs h = refl
length-take-drop (suc n) i [] h = absurd (omega (arith, h))
length-take-drop (suc n) zero (x ∷ xs) h = omega (arith, length-take-drop n zero xs (omega arith))
length-take-drop (suc n) (suc i) (x ∷ xs) h = length-take-drop (suc n) i xs (omega arith)

All-get_elem :
    (P : PcapPacket → Type 0) (ps : List PcapPacket) (i : ℕ) {p : PcapPacket}
    → All P ps
    → get_elem? ps i ≡ some p
    → P p
All-get_elem P [] i h e = absurd (cc)
All-get_elem P (q ∷ ps) zero h e = subst P (cc) h.0
All-get_elem P (q ∷ ps) (suc i) h e = All-get_elem P ps i h.1 e

view_of-IsView :
    (o : Option PcapPacket) (bytes : Text) (ingress_port : ℕ)
    → ((p : PcapPacket) → o ≡ some p → IsWithin (length bytes) p)
    → IsView (view_of o bytes ingress_port)
unfolding view_of
view_of-IsView none bytes ingress_port h d e = absurd (cc)
view_of-IsView (some p) bytes ingress_port h d e =
    let same : take p.captured_length (drop p.offset bytes) ≡ d = cc in
    rw same at (length-take-drop p.captured_length p.offset bytes (h p refl).0)

-- A view of a capture whose packets lie within its bytes points to as many bytes as its size says,
-- where it points to any.
pub view-IsView :
    (c : PcapCapture) (index ingress_port : ℕ)
    → IsIndexed (length c.bytes) c
    → IsView (view c index ingress_port)
unfolding view
view-IsView c index ingress_port v =
    view_of-IsView (get_elem? c.packets index) c.bytes ingress_port
      (λ p e. All-get_elem (IsWithin (length c.bytes)) c.packets index v e)
