-- ===== src/TrafficGenerator/Serial.antt =====
-- Frames that a generator gives one after another, and batches that address frames by their number.
use packet_switch.Prelude.{
  ℕ, suc, zero, ◌≡◌, ◌≤◌, ◌^◌, ◌+◌, ◌-◌, ◌%◌, ◌++◌, arith, sym, ap, ◌∙◌, ◌∷◌, [], refl, List, some,
  ok, length, drop, get_or, ltb, ◌||◌, false,
}
use packet_switch.TrafficGenerator.{
  generate, fill_batch, fill, resize, zeros, overwrite, new, DeterministicTrafficGenerator,
}
use packet_switch.TrafficGenerator.Totality.{traffic_frame-Gives}
use packet_switch.TrafficShape.{TrafficGeneratorConfig}
use packet_switch.Prelude.Texts.{Text}

append_nil : (t : Text) → t ++ [] ≡ t
append_nil [] = refl
append_nil (x ∷ t) = ap (λ u. x ∷ u) (append_nil t)

drop_all : (n : ℕ) (t : Text) → length t ≤ n → drop n t ≡ []
drop_all zero [] h = refl
drop_all (suc n) [] h = refl
drop_all zero (x ∷ t) h = absurd (omega arith)
drop_all (suc n) (x ∷ t) h = drop_all n t (omega arith)

length-zeros : (n : ℕ) → length (zeros n) ≡ n
length-zeros zero = refl
length-zeros (suc n) = omega (arith, length-zeros n)

length-resize : (size : ℕ) (buffer : Text) → length (resize size buffer) ≡ size
length-resize zero [] = refl
length-resize (suc size) [] =
    let same : suc size - 0 ≡ suc size = omega arith in rw same (length-zeros (suc size))
length-resize zero (x ∷ buffer) = omega (arith, length-zeros (0 - length (x ∷ buffer)))
length-resize (suc size) (x ∷ buffer) = ground (arith, length-resize size buffer)

-- A frame of the size of its buffer replaces what the buffer held.
overwrite-resize :
    (size : ℕ) (frame buffer : Text)
    → length frame ≡ size
    → overwrite frame (resize size buffer) ≡ frame
overwrite-resize size frame buffer h =
    ap (λ rest. frame ++ rest)
      (drop_all (length frame) (resize size buffer) (omega (arith, h, length-resize size buffer)))
    ∙ append_nil frame

-- After some frames, a generator goes on from the number behind them.
module _ (config : TrafficGeneratorConfig) where
  abbrev at_number : ℕ → DeterministicTrafficGenerator
  at_number n = record { config = config; sequence = n % 2 ^ 64 }

  next_number : (n : ℕ) → (n % 2 ^ 64 + 1) % 2 ^ 64 ≡ suc n % 2 ^ 64
  next_number n = omega arith

  drop-generate :
      (from first count : ℕ)
      → drop first (generate (at_number from) (first + count)).1
        ≡ (generate (at_number (from + first)) count).1
  unfolding generate
  drop-generate from zero count =
      let same : from + 0 ≡ from = omega arith in
      let all : 0 + count ≡ count = omega arith in rw (same, all) refl
  drop-generate from (suc first) count =
      let same : from + suc first ≡ suc from + first = omega arith in
      let shift : suc first + count ≡ suc (first + count) = omega arith in
      rw (shift, same, next_number from) (drop-generate (suc from) first count)

  fill_batch-generate :
      (ltb config.frame_size 14 || ltb config.host_count 2) ≡ false
      → (first index count : ℕ) (frames : List Text)
      → fill_batch config first index count frames ≡ (generate (at_number (first + index)) count).1
  unfolding generate fill_batch
  fill_batch-generate valid first index zero frames = refl
  fill_batch-generate valid first index (suc count) frames =
      let (frame, made, long) = traffic_frame-Gives config ((first + index) % 2 ^ 64) in
      let rest = fill_batch-generate valid first (suc index) count (drop 1 frames) in
      let next : first + suc index ≡ suc (first + index) = omega arith in
      let whole =
        overwrite-resize config.frame_size frame (get_or frames 0 [])
          (ground (arith, long, valid)) in
      rw (made, whole, next_number (first + index))
        (ap (λ fs. some frame ∷ fs) (rest ∙ ap (λ n. (generate (at_number n) count).1) next))

-- For a configuration that the generator's constructor accepts, a batch from a number on holds the
-- frames that the new generator gives after that many others, whatever the buffers of the batch
-- held before.
pub fill-generate :
    (config : TrafficGeneratorConfig) (g : DeterministicTrafficGenerator) (first count : ℕ)
    (frames : List Text)
    → new config ≡ ok g
    → fill config first count frames ≡ drop first (generate g (first + count)).1
unfolding new
fill-generate config g first count frames accepted =
    let valid : (ltb config.frame_size 14 || ltb config.host_count 2) ≡ false = ground arith in
    let started : g ≡ at_number config 0 = ground arith in
    fill_batch-generate config valid first 0 count frames
    ∙ rw started (
        let same : first + 0 ≡ 0 + first = omega arith in
        rw same (sym (drop-generate config 0 first count)))
