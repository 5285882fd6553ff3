-- ===== src/PacketBatch/Storage.antt =====
-- The buffers that `PacketBatch::create` fills, and what `packet_views` reads from them.
use packet_switch.Prelude.{
  ℕ, List, Option, length, value_or, take, drop, if◌then◌else◌, suc, ◌∷◌, ◌+◌, [], ◌≡◌, ◌++◌, ◌≤◌,
  ◌==◌, ◌<◌, refl, zero, ap, some, none, ◌∙◌, arith, ◌^◌, length-append, map, sym,
}
use packet_switch.Packet.{PacketView}
use packet_switch.PacketBatch.{gather, view_at}
use packet_switch.Prelude.Texts.{Text}

-- A view that can be stored: it points to its bytes, and its size fits 16 bits.
abbrev pub IsStorable : PacketView → Type 0
IsStorable v = (length (value_or v.bytes []) ≡ v.size) × (v.size < 2 ^ 16)

abbrev pub bytes_of : List PacketView → ℕ
bytes_of [] = 0
bytes_of (v ∷ vs) = v.size + bytes_of vs

-- What is read back: an empty view has a null pointer.
abbrev pub stored : PacketView → PacketView
stored v = record v { bytes = if v.size == 0 then none else some (value_or v.bytes []) }

-- The buffers hold the packets one after another, up to the end of the bytes.
pub data Stores (bytes : Text) : List ℕ → List ℕ → List ℕ → List PacketView → Type 0 where
  ended : Stores bytes (length bytes ∷ []) [] [] []
  holding :
      (offset : ℕ) (offsets sizes senders : List ℕ) (v : PacketView) (vs : List PacketView)
      → take v.size (drop offset bytes) ≡ value_or v.bytes []
      → offset + v.size ≤ length bytes
      → Stores bytes offsets sizes senders vs
      → Stores bytes (offset ∷ offsets) (v.size ∷ sizes) (v.ingress_port ∷ senders) (v ∷ vs)

take-drop-append :
    (n i : ℕ) (xs ys : Text) → i + n ≤ length xs → take n (drop i (xs ++ ys)) ≡ take n (drop i xs)
take-drop-append zero i xs ys h = refl
take-drop-append (suc n) i [] ys h = absurd (omega (arith, h))
take-drop-append (suc n) zero (x ∷ xs) ys h =
    ap (λ t. x ∷ t) (take-drop-append n zero xs ys (omega (arith, h)))
take-drop-append (suc n) (suc i) (x ∷ xs) ys h = take-drop-append (suc n) i xs ys (omega (arith, h))

pub take-length : {A : Type 0} (xs : List A) → take (length xs) xs ≡ xs
take-length [] = refl
take-length (x ∷ xs) = ap (λ t. x ∷ t) (take-length xs)

drop-append : (xs ys : Text) → drop (length xs) (xs ++ ys) ≡ ys
drop-append [] ys = refl
drop-append (x ∷ xs) ys = drop-append xs ys

pub Stores-append :
    (bytes d : Text) (offsets sizes senders : List ℕ) (vs : List PacketView) (v : PacketView)
    → value_or v.bytes [] ≡ d
    → length d ≡ v.size
    → Stores bytes offsets sizes senders vs
    → Stores
        (bytes ++ d)
        (offsets ++ length (bytes ++ d) ∷ [])
        (sizes ++ v.size ∷ [])
        (senders ++ v.ingress_port ∷ [])
        (vs ++ v ∷ [])
Stores-append bytes d _ _ _ _ v of fits ended =
    holding (length bytes) (length (bytes ++ d) ∷ []) [] [] v []
      (rw (drop-append bytes d, sym fits, take-length d) (sym of))
      (omega (arith, length-append bytes d, fits)) ended
Stores-append bytes d _ _ _ _ v of fits (holding o os ns ss w ws at within rest) =
    holding o _ _ _ w _ (take-drop-append w.size o bytes d within ∙ at)
      (omega (arith, within, length-append bytes d))
      (Stores-append bytes d os ns ss ws v of fits rest)

gather-suc :
    {A : Type 0} (view : ℕ → Option A) (index count : ℕ)
    → gather view (suc index) count ≡ gather (λ i. view (suc i)) index count
unfolding gather
gather-suc view index zero = refl
gather-suc view index (suc count) = rw (gather-suc view (suc index) count) refl

pub gather-Stores :
    (bytes : Text) (offsets sizes senders : List ℕ) (vs : List PacketView)
    → Stores bytes offsets sizes senders vs
    → gather (view_at bytes offsets sizes senders) 0 (length sizes) ≡ some (map stored vs)
unfolding gather view_at
gather-Stores bytes _ _ _ _ ended = refl
gather-Stores bytes _ _ _ _ (holding o os ns ss w ws at within rest) =
    rw
      (
        gather-suc (view_at bytes (o ∷ os) (w.size ∷ ns) (w.ingress_port ∷ ss)) 0 (length ns),
        gather-Stores bytes os ns ss ws rest,
        at,
      )
      refl
