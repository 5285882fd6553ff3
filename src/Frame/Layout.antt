-- ===== src/Frame/Layout.antt =====
-- The layout of a frame: `try_parse` and `serialize` of src/ethernet_frame.cpp.
use packet_switch.Prelude.{
  ℕ, ◌+◌, ◌*◌, ◌/◌, ◌%◌, ◌≤◌, ◌<◌, ◌≡◌, ◌⊎◌, inl, inr, ◌∷◌, ok, unexpected, length, arith, bit_or,
}
use packet_switch.Prelude.Bits.{or_disjoint}
use packet_switch.Prelude.Texts.{Text}
use packet_switch.Frame.{
  EthernetFrame, too_short, try_parse, serialize, read_frame, frame_size, IsFrame, AreBytes,
}

big_endian : (a b : ℕ) → b < 256 → bit_or (a * 256) b ≡ a * 256 + b
big_endian a b h = or_disjoint b a 8 h

-- What a frame whose fields are in range is written as is read back as the same frame, and has the
-- size that it reports.
pub try_parse-serialize :
    (f : EthernetFrame)
    → IsFrame f
    → (try_parse (serialize f) ≡ ok f) × (length (serialize f) ≡ frame_size f)
unfolding try_parse serialize frame_size
try_parse-serialize f v =
    (ground (arith, big_endian (f.ethertype / 256 % 256) (f.ethertype % 256)), omega arith)

-- A buffer of bytes parses exactly when it holds a header, and then the frame is valid and is
-- written back as that buffer; a shorter one is refused as too short.
pub try_parse_lem :
    (d : Text)
    → AreBytes d
    → ((f : EthernetFrame) × (14 ≤ length d) × (try_parse d ≡ ok f) × (serialize f ≡ d) × IsFrame f)
      ⊎ ((length d < 14) × (try_parse d ≡ unexpected too_short))
unfolding try_parse serialize
try_parse_lem (a ∷ b ∷ c ∷ d ∷ e ∷ f ∷ g ∷ i ∷ j ∷ k ∷ l ∷ m ∷ n ∷ o ∷ rest) h =
    let joined : bit_or (n * 256) o ≡ n * 256 + o =
      big_endian n o (h.1.1.1.1.1.1.1.1.1.1.1.1.1.0) in
    inl (
      read_frame (a ∷ b ∷ c ∷ d ∷ e ∷ f ∷ g ∷ i ∷ j ∷ k ∷ l ∷ m ∷ n ∷ o ∷ rest),
      omega arith,
      ground arith,
      ground (arith, joined),
      ground (arith, joined),
    )
try_parse_lem _ h = inr (omega arith, ground arith)
