-- ===== src/Pcap.antt =====
-- The readers of include/wirelab/pcap.hpp and src/pcap.cpp. A read outside of the buffer and a loop
-- that runs out of fuel are `none`. Shifted bytes do not overlap, so `|` is a sum.
pub mod Memory
pub mod Captures
use packet_switch.Frame.{◌>>=◌}
use packet_switch.Packet.{PacketView}
use packet_switch.Prelude.Texts.{Text, is_empty}
use packet_switch.Prelude.{
  Option, some, Bool, ◌++◌, ℕ, List, if◌then◌else◌, none, unexpected, suc, ◌∷◌, get_elem?, ◌+◌,
  Expected, ◌/◌, ◌*◌, zero, ◌==◌, length, not, [], ltb, ◌^◌, take, ok, bit_and, ◌-◌, ◌||◌, ◌%◌,
  false, drop, ◌&&◌, true, leb, max, min,
}

pub data PcapError : Type 0 where
  file_read file_write truncated_header unknown_magic unsupported_link_type : PcapError
  truncated_packet oversize_packet : PcapError

pub record PcapPacket : Type 0 where
  pub timestamp_ns : ℕ
  pub offset : ℕ
  pub captured_length : ℕ
  pub original_length : ℕ

pub record PcapCapture : Type 0 where
  pub bytes : Text
  pub packets : List PcapPacket
  pub link_type : ℕ
  pub snaplen : ℕ
  pub nanosecond_resolution : Bool
  pub pcapng : Bool

abbrev pub maximum_snaplen : ℕ
maximum_snaplen = 262144

abbrev pub Loaded : Type 0 → Type 0
Loaded A = Option (Expected A PcapError)

-- A failure is the result of the whole reader.
unfoldable pub and_then : {A B : Type 0} → Loaded A → (A → Loaded B) → Loaded B
and_then none f = none
and_then (some (unexpected e)) f = some (unexpected e)
and_then (some (ok a)) f = f a

abbrev pub swap_u32 : ℕ → ℕ
swap_u32 v =
    v / 2 ^ 24 + v / 2 ^ 16 % 2 ^ 8 * 2 ^ 8 + v / 2 ^ 8 % 2 ^ 8 * 2 ^ 16 + v % 2 ^ 8 * 2 ^ 24

unfoldable pub read_u32 : Text → ℕ → Bool → Option ℕ
read_u32 bytes i swapped = do
  b0 ← get_elem? bytes i
  b1 ← get_elem? bytes (i + 1)
  b2 ← get_elem? bytes (i + 2)
  b3 ← get_elem? bytes (i + 3)
  let value = b0 + b1 * 2 ^ 8 + b2 * 2 ^ 16 + b3 * 2 ^ 24
  some (if swapped then swap_u32 value else value)

unfoldable pub read_u16 : Text → ℕ → Bool → Option ℕ
read_u16 bytes i swapped = do
  b0 ← get_elem? bytes i
  b1 ← get_elem? bytes (i + 1)
  let value = b0 + b1 * 2 ^ 8
  some (if swapped then value / 2 ^ 8 + value % 2 ^ 8 * 2 ^ 8 else value)

-- The loop over the options of an interface, which start at `options`.
unfoldable pub resolution_from : ℕ → Text → ℕ → ℕ → Bool → ℕ → Option ℕ
resolution_from zero bytes options size swapped offset = none
resolution_from (suc fuel) bytes options size swapped offset =
    if ltb size (offset + 4) then some 6 else (do
      code ← read_u16 bytes (options + offset) swapped
      option_length ← read_u16 bytes (options + offset + 2) swapped
      let rest =
          resolution_from fuel bytes options size swapped
            (offset + (4 + (option_length + 3) / 4 * 4))
      if code == 0
          then some 6
          else if code == 9 && leb 1 option_length && leb (offset + 4 + option_length) size
          then get_elem? bytes (options + (offset + 4))
          else rest)

unfoldable pub read_timestamp_resolution : Text → ℕ → ℕ → Bool → Option ℕ
unfolding resolution_from
read_timestamp_resolution bytes options size swapped =
    resolution_from (suc size) bytes options size swapped 0

unfoldable pub scale_up : ℕ → ℕ → ℕ
scale_up zero n = n
scale_up (suc decimals) n = scale_up decimals (n * 10 % 2 ^ 64)

unfoldable pub scale_down : ℕ → ℕ → ℕ
scale_down zero n = n
scale_down (suc decimals) n = scale_down decimals (n / 10)

unfoldable pub ticks_to_nanoseconds : ℕ → ℕ → ℕ
unfolding scale_up scale_down
ticks_to_nanoseconds ticks resolution =
    if not (bit_and resolution 0x80 == 0)
    then (let power = bit_and resolution 0x7F in
        if leb 64 power then 0 else ticks * 1000000000 % 2 ^ 64 / 2 ^ power)
    else scale_down (resolution - 9) (scale_up (9 - resolution) ticks)

abbrev add_packet : PcapCapture → PcapPacket → PcapCapture
add_packet c p = record c { packets = c.packets ++ p ∷ [] }

-- The loop of `from_bytes` over the records of a classic capture.
unfoldable pub read_records : ℕ → Bool → Bool → ℕ → Text → PcapCapture → Loaded PcapCapture
read_records zero swapped nanoseconds offset bytes c = none
read_records (suc fuel) swapped nanoseconds offset bytes c =
    if not (ltb offset (length bytes))
    then some (ok (record c { bytes = bytes }))
    else if ltb (length bytes - offset) 16
    then some (unexpected truncated_packet)
    else (do
      seconds ← read_u32 bytes offset swapped
      fraction ← read_u32 bytes (offset + 4) swapped
      captured ← read_u32 bytes (offset + 8) swapped
      original ← read_u32 bytes (offset + 12) swapped
      let packet : PcapPacket = record {
        timestamp_ns =
            (seconds * 1000000000 + (if nanoseconds then fraction else fraction * 1000)) % 2 ^ 64;
        offset = offset + 16;
        captured_length = captured;
        original_length = original;
      }
      let rest =
          read_records fuel swapped nanoseconds (offset + 16 + captured) bytes (add_packet c packet)
      if ltb maximum_snaplen captured
          then some (unexpected oversize_packet)
          else if ltb (length bytes - (offset + 16)) captured
          then some (unexpected truncated_packet)
          else rest)

-- `swapped` and `nanoseconds` of a magic number.
unfoldable pub byte_order : ℕ → Option (Bool × Bool)
byte_order magic =
    if magic == 0xA1B2C3D4
    then some (false, false)
    else if magic == 0xA1B23C4D
    then some (false, true)
    else if magic == 0xD4C3B2A1
    then some (true, false)
    else if magic == 0x4D3CB2A1
    then some (true, true)
    else none

unfoldable pub read_classic : Bool × Bool → Text → Loaded PcapCapture
unfolding read_records
read_classic (swapped, nanoseconds) bytes = do
  snaplen ← read_u32 bytes 16 swapped
  link_type ← read_u32 bytes 20 swapped
  if not (link_type == 1)
      then some (unexpected unsupported_link_type)
      else read_records (suc (length bytes)) swapped nanoseconds 24 bytes (record {
        bytes = [];
        packets = [];
        link_type = link_type;
        snaplen = snaplen;
        nanosecond_resolution = nanoseconds;
        pcapng = false;
      })

-- What the reader of pcapng blocks carries: the capture so far, the resolutions of the section's
-- interfaces, and its byte order.
pub record Section : Type 0 where
  pub capture : PcapCapture
  pub interface_resolutions : List ℕ
  pub swapped : Bool

-- The byte order of a section header, which forgets the interfaces.
unfoldable pub open_section : Text → ℕ → Section → Loaded Section
open_section bytes offset s =
    if ltb (length bytes - offset) 16 then some (unexpected truncated_header) else (do
      order ← read_u32 bytes (offset + 8) false
      if order == 0x1A2B3C4D
          then some (ok (record s { swapped = false; interface_resolutions = [] }))
          else if order == 0x4D3C2B1A
          then some (ok (record s { swapped = true; interface_resolutions = [] }))
          else some (unexpected unknown_magic))

unfoldable pub interface_block : Text → ℕ → ℕ → Section → Loaded Section
unfolding read_timestamp_resolution
interface_block bytes body body_length s =
    if ltb body_length 8 then some (unexpected truncated_header) else (do
      link_type ← read_u16 bytes body s.swapped
      if not (link_type == 1) then some (unexpected unsupported_link_type) else (do
        snaplen ← read_u32 bytes (body + 4) s.swapped
        resolution ← read_timestamp_resolution bytes (body + 8) (body_length - 8) s.swapped
        some (
            ok (record s {
              capture = record s.capture {
                link_type = link_type;
                snaplen = max s.capture.snaplen snaplen;
                nanosecond_resolution =
                    s.capture.nanosecond_resolution
                    || (bit_and resolution 0x80 == 0 && ltb 6 resolution);
              };
              interface_resolutions = s.interface_resolutions ++ resolution ∷ [];
            }))))

abbrev found : Section → PcapPacket → Section
found s p = record s { capture = add_packet s.capture p }

unfoldable pub enhanced_block : Text → ℕ → ℕ → Section → Loaded Section
unfolding ticks_to_nanoseconds
enhanced_block bytes body body_length s =
    if ltb body_length 20 then some (unexpected truncated_header) else (do
      interface_id ← read_u32 bytes body s.swapped
      high ← read_u32 bytes (body + 4) s.swapped
      low ← read_u32 bytes (body + 8) s.swapped
      captured ← read_u32 bytes (body + 12) s.swapped
      original ← read_u32 bytes (body + 16) s.swapped
      if ltb maximum_snaplen captured
          then some (unexpected oversize_packet)
          else if ltb (body_length - 20) captured
              || leb (length s.interface_resolutions) interface_id
          then some (unexpected truncated_packet)
          else (do
            resolution ← get_elem? s.interface_resolutions interface_id
            some (
                ok (
                  found s (record {
                    timestamp_ns = ticks_to_nanoseconds (high * 2 ^ 32 + low) resolution;
                    offset = body + 20;
                    captured_length = captured;
                    original_length = original;
                  })))))

unfoldable pub simple_block : Text → ℕ → ℕ → Section → Loaded Section
simple_block bytes body body_length s =
    if ltb body_length 4 || is_empty s.interface_resolutions
    then some (unexpected truncated_packet)
    else (do
      original ← read_u32 bytes body s.swapped
      let captured = if s.capture.snaplen == 0 then original else min original s.capture.snaplen
      if ltb maximum_snaplen captured
          then some (unexpected oversize_packet)
          else if ltb (body_length - 4) captured
          then some (unexpected truncated_packet)
          else some (
              ok (
                found s (record {
                  timestamp_ns = 0;
                  offset = body + 4;
                  captured_length = captured;
                  original_length = original;
                }))))

-- A block of another type is passed over.
unfoldable pub block_body : ℕ → Text → ℕ → ℕ → Section → Loaded Section
unfolding interface_block enhanced_block simple_block
block_body block_type bytes body body_length s =
    if block_type == 1
    then interface_block bytes body body_length s
    else if block_type == 6
    then enhanced_block bytes body body_length s
    else if block_type == 3
    then simple_block bytes body body_length s
    else some (ok s)

-- A block once its type and the byte order are known, with its length.
unfoldable pub sized_block : ℕ → Text → ℕ → Section → Loaded (Section × ℕ)
unfolding block_body and_then
sized_block block_type bytes offset s = do
  block_length ← read_u32 bytes (offset + 4) s.swapped
  if ltb block_length 12 || not (block_length % 4 == 0) || ltb (length bytes - offset) block_length
      then some (unexpected truncated_packet)
      else and_then (block_body block_type bytes (offset + 8) (block_length - 12) s) (λ s'. do
        trailer ← read_u32 bytes (offset + block_length - 4) s'.swapped
        if not (trailer == block_length)
            then some (unexpected truncated_packet)
            else some (ok (s', block_length)))

unfoldable pub read_block : Text → ℕ → Section → Loaded (Section × ℕ)
unfolding open_section sized_block and_then
read_block bytes offset s =
    if ltb (length bytes - offset) 12 then some (unexpected truncated_packet) else (do
      block_type ← read_u32 bytes offset s.swapped
      if block_type == 0x0A0D0D0A
          then and_then (open_section bytes offset s) (λ s'. sized_block block_type bytes offset s')
          else sized_block block_type bytes offset s)

-- The loop of `from_pcapng_bytes`.
unfoldable pub read_blocks : ℕ → Text → ℕ → Section → Loaded PcapCapture
unfolding read_block and_then
read_blocks zero bytes offset s = none
read_blocks (suc fuel) bytes offset s =
    let rest =
      and_then (read_block bytes offset s) (λ b. read_blocks fuel bytes (offset + b.1) b.0) in
    if not (ltb offset (length bytes))
    then some (
        ok (record s.capture {
          bytes = bytes;
          snaplen = if s.capture.snaplen == 0 then maximum_snaplen else s.capture.snaplen;
        }))
    else rest

abbrev pub no_section : Section
no_section = record {
  capture = record {
    bytes = [];
    packets = [];
    link_type = 1;
    snaplen = 0;
    nanosecond_resolution = false;
    pcapng = true;
  };
  interface_resolutions = [];
  swapped = false;
}

unfoldable pub from_pcapng_bytes : Text → Loaded PcapCapture
unfolding read_blocks
from_pcapng_bytes bytes = read_blocks (suc (length bytes)) bytes 0 no_section

unfoldable pub from_classic_bytes : Option (Bool × Bool) → Text → Loaded PcapCapture
unfolding read_classic
from_classic_bytes none bytes = some (unexpected unknown_magic)
from_classic_bytes (some order) bytes = read_classic order bytes

unfoldable pub from_bytes : Text → Loaded PcapCapture
unfolding from_pcapng_bytes from_classic_bytes byte_order
from_bytes bytes = if ltb (length bytes) 4 then some (unexpected truncated_header) else (do
  magic ← read_u32 bytes 0 false
  if magic == 0x0A0D0D0A
      then from_pcapng_bytes bytes
      else if ltb (length bytes) 24
      then some (unexpected truncated_header)
      else from_classic_bytes (byte_order magic) bytes)

-- The view of a packet; none is an empty view.
unfoldable pub view_of : Option PcapPacket → Text → ℕ → PacketView
view_of none bytes ingress_port = record { bytes = none; size = 0; ingress_port = 0 }
view_of (some p) bytes ingress_port = record {
  bytes = some (take p.captured_length (drop p.offset bytes));
  size = p.captured_length;
  ingress_port = ingress_port;
}

unfoldable pub view : PcapCapture → ℕ → ℕ → PacketView
unfolding view_of
view c index ingress_port = view_of (get_elem? c.packets index) c.bytes ingress_port
