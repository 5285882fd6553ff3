-- ===== src/Pcap/Memory.antt =====
-- What the readers touch: the buffer, and the packets that they index.
use packet_switch.Frame.{◌>>=◌}
use packet_switch.PacketParser.Bounds.{Safe, Safe-bind, Safe-if, read_byte-Safe}
use packet_switch.Prelude.Texts.{Text}
use packet_switch.Prelude.{
  ℕ, Bool, Option, some, ◌+◌, false≢true, ◌≡◌, List, All, none, ◌≤◌, unexpected, length, true, ◌<◌,
  suc, false, arith, ◌++◌, ok, get_elem?, ltb, if◌then◌else◌, ◌∷◌, not, refl, ◌==◌, [], ◌-◌, zero,
  All-append, ◌&&◌, leb, ◌/◌, ◌*◌,
}
use packet_switch.Pcap.{
  and_then, read_timestamp_resolution, read_u32, Loaded, read_records, read_u16, resolution_from,
  PcapPacket, Section, PcapCapture, maximum_snaplen,
}

-- A reader that ends without a read outside, and what it loads has a property.
abbrev pub Holds : {A : Type 0} → (A → Type 0) → Loaded A → Type 0
Holds P none = ⊥
Holds P (some (unexpected _)) = Unit
Holds P (some (ok a)) = P a

pub Holds-read :
    {A B : Type 0} (P : B → Type 0) (r : Option A) (f : A → Loaded B)
    → Safe r
    → ((a : A) → Holds P (f a))
    → Holds P (r >>= f)
Holds-read P none f h k = absurd (false≢true h)
Holds-read P (some a) f h k = k a

pub Holds-if :
    {A : Type 0} (P : A → Type 0) (b : Bool) (r s : Loaded A)
    → (b ≡ true → Holds P r)
    → (b ≡ false → Holds P s)
    → Holds P (if b then r else s)
Holds-if P true r s h k = h refl
Holds-if P false r s h k = k refl

pub Holds-then :
    {A B : Type 0} (P : A → Type 0) (Q : B → Type 0) (r : Loaded A) (f : A → Loaded B)
    → Holds P r
    → ((a : A) → P a → Holds Q (f a))
    → Holds Q (and_then r f)
unfolding and_then
Holds-then P Q none f h k = h
Holds-then P Q (some (unexpected _)) f h k = tt
Holds-then P Q (some (ok a)) f h k = k a h

-- A frame of a plausible length within a buffer.
abbrev pub IsWithin : ℕ → PcapPacket → Type 0
IsWithin size p = (p.offset + p.captured_length ≤ size) × (p.captured_length ≤ maximum_snaplen)

abbrev pub IsIndexed : ℕ → PcapCapture → Type 0
IsIndexed size c = All (IsWithin size) c.packets

-- What is loaded: the buffer, and packets within it.
abbrev pub IsCapture : Text → PcapCapture → Type 0
IsCapture bytes c = (c.bytes ≡ bytes) × IsIndexed (length bytes) c

abbrev pub IsSection : Text → Section → Type 0
IsSection bytes s = IsIndexed (length bytes) s.capture

pub read_u32-Safe :
    (d : Text) (i : ℕ) (swapped : Bool) → i + 3 < length d → Safe (read_u32 d i swapped)
unfolding read_u32
read_u32-Safe d i swapped h = Safe-bind (get_elem? d i) _ (read_byte-Safe d i (omega arith)) (λ b0.
    Safe-bind (get_elem? d (i + 1)) _ (read_byte-Safe d (i + 1) (omega arith)) (λ b1.
      Safe-bind (get_elem? d (i + 2)) _ (read_byte-Safe d (i + 2) (omega arith))
        (λ b2. Safe-bind (get_elem? d (i + 3)) _ (read_byte-Safe d (i + 3) h) (λ b3. refl))))

pub read_u16-Safe :
    (d : Text) (i : ℕ) (swapped : Bool) → i + 1 < length d → Safe (read_u16 d i swapped)
unfolding read_u16
read_u16-Safe d i swapped h =
    Safe-bind (get_elem? d i) _ (read_byte-Safe d i (omega arith))
      (λ b0. Safe-bind (get_elem? d (i + 1)) _ (read_byte-Safe d (i + 1) h) (λ b1. refl))

resolution_from-Safe :
    (fuel : ℕ) (d : Text) (options size : ℕ) (swapped : Bool) (offset : ℕ)
    → options + size ≤ length d
    → size < offset + fuel
    → 0 < fuel
    → Safe (resolution_from fuel d options size swapped offset)
unfolding resolution_from
resolution_from-Safe zero d options size swapped offset h k l = absurd (omega arith)
resolution_from-Safe (suc fuel) d options size swapped offset h k l =
    Safe-if (ltb size (offset + 4)) _ _ (λ short. refl)
      (λ fits.
        Safe-bind (read_u16 d (options + offset) swapped) _
          (read_u16-Safe d (options + offset) swapped (ground arith))
          (λ code.
            Safe-bind (read_u16 d (options + offset + 2) swapped) _
              (read_u16-Safe d (options + offset + 2) swapped (ground arith))
              (λ n.
                Safe-if (code == 0) _ _ (λ end. refl)
                  (λ more.
                    Safe-if (code == 9 && leb 1 n && leb (offset + 4 + n) size) _ _
                      (λ this. read_byte-Safe d (options + (offset + 4)) (ground arith))
                      (λ other.
                        resolution_from-Safe fuel d options size swapped
                          (offset + (4 + (n + 3) / 4 * 4)) h (ground arith) (ground arith))))))

pub read_timestamp_resolution-Safe :
    (d : Text) (options size : ℕ) (swapped : Bool)
    → options + size ≤ length d
    → Safe (read_timestamp_resolution d options size swapped)
unfolding read_timestamp_resolution
read_timestamp_resolution-Safe d options size swapped h =
    resolution_from-Safe (suc size) d options size swapped 0 h (omega arith) (omega arith)

pub append-IsIndexed :
    (size : ℕ) (packets : List PcapPacket) (p : PcapPacket)
    → All (IsWithin size) packets
    → IsWithin size p
    → All (IsWithin size) (packets ++ p ∷ [])
append-IsIndexed size packets p h k = All-append (IsWithin size) packets (p ∷ []) (h, (k, tt))

pub read_records-Holds :
    (fuel : ℕ) (swapped nanoseconds : Bool) (offset : ℕ) (d : Text) (c : PcapCapture)
    → offset ≤ length d
    → length d < offset + fuel
    → IsIndexed (length d) c
    → Holds (IsCapture d) (read_records fuel swapped nanoseconds offset d c)
unfolding read_records
read_records-Holds zero swapped nanoseconds offset d c h k v = absurd (omega arith)
read_records-Holds (suc fuel) swapped nanoseconds offset d c h k v =
    Holds-if _ (not (ltb offset (length d))) _ _ (λ end. (refl, v))
      (λ more.
        Holds-if _ (ltb (length d - offset) 16) _ _ (λ short. tt)
          (λ fits.
            Holds-read _ (read_u32 d offset swapped) _
              (read_u32-Safe d offset swapped (ground arith))
              (λ seconds.
                Holds-read _ (read_u32 d (offset + 4) swapped) _
                  (read_u32-Safe d (offset + 4) swapped (ground arith))
                  (λ fraction.
                    Holds-read _ (read_u32 d (offset + 8) swapped) _
                      (read_u32-Safe d (offset + 8) swapped (ground arith))
                      (λ captured.
                        Holds-read _ (read_u32 d (offset + 12) swapped) _
                          (read_u32-Safe d (offset + 12) swapped (ground arith))
                          (λ original.
                            Holds-if _ (ltb maximum_snaplen captured) _ _ (λ large. tt)
                              (λ plausible.
                                Holds-if _ (ltb (length d - (offset + 16)) captured) _ _ (λ cut. tt)
                                  (λ whole.
                                    read_records-Holds fuel swapped nanoseconds
                                      (offset + 16 + captured) d _ (ground arith) (ground arith)
                                      (append-IsIndexed (length d) c.packets _ v
                                        (ground arith, ground arith))))))))))
