-- ===== src/TrafficGenerator/Checksum.antt =====
-- The checksum of the IPv4 headers that src/traffic_generator.cpp writes.
use packet_switch.Prelude.{
  ℕ, Option, suc, ◌≡◌, some, ◌<◌, ◌%◌, ◌^◌, ◌+◌, ◌/◌, ◌==◌, Bool-cases, length, arith, inl, true,
  inr, refl, ◌∙◌, ◌-◌,
}
use packet_switch.TrafficGenerator.{fold_carries, ipv4_header, ipv4_checksum, word_sum, header_with}
use packet_switch.Prelude.Texts.{Text}

-- What folding leaves: 16 bits, with the same remainder by 65535.
abbrev IsFolded : ℕ → Option ℕ → Type 0
IsFolded sum r = (out : ℕ) × (r ≡ some out) × (out < 2 ^ 16) × (out % 65535 ≡ sum % 65535)

fold-remainder : (sum : ℕ) → (sum % 2 ^ 16 + sum / 2 ^ 16) % 65535 ≡ sum % 65535
fold-remainder sum = omega arith

fold_done : (fuel sum : ℕ) → sum < 2 ^ 16 → IsFolded sum (fold_carries (suc fuel) sum)
unfolding fold_carries
fold_done fuel sum small =
    let done : (sum / 2 ^ 16 == 0) ≡ true = ground (arith, small) in
    (sum, rw done refl, small, refl)

fold_step :
    (fuel sum : ℕ)
    → IsFolded (sum % 2 ^ 16 + sum / 2 ^ 16) (fold_carries fuel (sum % 2 ^ 16 + sum / 2 ^ 16))
    → IsFolded sum (fold_carries (suc fuel) sum)
unfolding fold_carries
fold_step fuel sum (out, folded, small, same) = elim (Bool-cases (sum / 2 ^ 16 == 0)) [
  | inl done ↦ (sum, rw done refl, ground (arith, done), refl)
  | inr more ↦ (out, rw more folded, small, same ∙ fold-remainder sum)
]

-- Four rounds are enough for a sum below 2^20: after one it is below 2^16 + 16, and after two
-- below 2^16.
fold_carries_lem : (sum : ℕ) → sum < 2 ^ 20 → IsFolded sum (fold_carries 4 sum)
fold_carries_lem sum small =
    let once = sum % 2 ^ 16 + sum / 2 ^ 16 in
    let twice = once % 2 ^ 16 + once / 2 ^ 16 in
    fold_step 3 sum (fold_step 2 once (fold_done 1 twice (omega (arith, small))))

-- The header is written with the checksum that folding leaves.
pub ipv4_header-checksum :
    (payload_size identification protocol source_host destination_host : ℕ)
    → protocol < 2 ^ 8
    → (checksum : ℕ) × (ipv4_header payload_size identification protocol source_host
          destination_host
        ≡ some (
            header_with payload_size identification protocol source_host destination_host checksum))
      × (word_sum (
              header_with payload_size identification protocol source_host destination_host
                checksum)
            % 65535
          ≡ 0)
unfolding ipv4_header ipv4_checksum
ipv4_header-checksum payload_size identification protocol source_host destination_host short =
    let header = header_with payload_size identification protocol source_host destination_host in
    let (out, folded, small, same) =
      fold_carries_lem (word_sum (header 0)) (omega (arith, short)) in
    ((2 ^ 32 - 1 - out) % 2 ^ 16, rw folded refl, omega (arith, small, same))

-- The header is written, for any arguments, and the 16-bit words of what is written add up to a
-- multiple of 65535 above 0, which is what a receiver checks.
pub ipv4_header-checks :
    (payload_size identification protocol source_host destination_host : ℕ)
    → protocol < 2 ^ 8
    → (header : Text) × (ipv4_header payload_size identification protocol source_host
          destination_host
        ≡ some header)
      × (length header ≡ 20)
      × (word_sum header % 65535 ≡ 0)
      × (0 < word_sum header)
ipv4_header-checks payload_size identification protocol source_host destination_host short =
    let (checksum, made, same) =
      ipv4_header-checksum payload_size identification protocol source_host destination_host
        short in
    (
      header_with payload_size identification protocol source_host destination_host checksum,
      made,
      refl,
      same,
      omega arith,
    )
