-- ===== src/Json/Loops.antt =====
-- Loops over the input whose rounds consume input, and their fuel.
use packet_switch.Json.{Scanner, Scanned, Round, again, finished, repeat, follow, ControlParseError}
use packet_switch.Prelude.Texts.{Text}
use packet_switch.Prelude.{
  ℕ, suc, ok, ◌≤◌, length, ◌≡◌, unexpected, Expected-cases, ◌<◌, arith, inl, ◌∙◌, inr, zero, sym,
}

-- What is left of the input is shorter than a bound.
abbrev pub Below : {A : Type 0} → ℕ → Scanned A → Type 0
Below bound (ok (_, rest)) = length rest < bound
Below bound (unexpected _) = Unit

pub Below-mono :
    {A : Type 0} {bound larger : ℕ} (r : Scanned A)
    → bound ≤ larger
    → Below bound r
    → Below larger r
Below-mono (ok (_, rest)) h below = omega arith
Below-mono (unexpected _) h below = tt

pub follow-Below :
    {A B : Type 0} {bound : ℕ} (r : Scanned A) (f : A → Scanner B)
    → Below bound r
    → ((a : A) (rest : Text) → length rest < bound → Below bound (f a rest))
    → Below bound (follow r f)
unfolding follow
follow-Below (ok (a, rest)) f below then_below = then_below a rest below
follow-Below (unexpected _) f below then_below = tt

-- The rounds that a loop makes, as a derivation.
pub data Runs {S R : Type 0} (body : S → Scanner (Round S R)) : S → Text → R → Text → Type 0 where
  leaves :
      {s : S} {t : Text} {r : R} {rest : Text}
      → body s t ≡ ok (finished r, rest)
      → Runs body s t r rest
  stays :
      {s s' : S} {t u : Text} {r : R} {rest : Text}
      → body s t ≡ ok (again s', u)
      → Runs body s' u r rest
      → Runs body s t r rest

module _ {S R : Type 0} (body : S → Scanner (Round S R)) where
  abbrev pub Consumes : Type 0
  Consumes = (s : S) (t : Text) → Below (length t) (body s t)

  pub repeat-finished :
      (fuel : ℕ) (s : S) (t : Text) {r : R} {rest : Text}
      → body s t ≡ ok (finished r, rest)
      → repeat body (suc fuel) s t ≡ ok (r, rest)
  unfolding repeat
  repeat-finished fuel s t e = rw (e, repeat)

  pub repeat-again :
      (fuel : ℕ) (s : S) (t : Text) {s' : S} {rest : Text}
      → body s t ≡ ok (again s', rest)
      → repeat body (suc fuel) s t ≡ repeat body fuel s' rest
  unfolding repeat
  repeat-again fuel s t e = rw (e, repeat)

  pub repeat-unexpected :
      (fuel : ℕ) (s : S) (t : Text) {e : ControlParseError}
      → body s t ≡ unexpected e
      → repeat body (suc fuel) s t ≡ unexpected e
  unfolding repeat
  repeat-unexpected fuel s t e = rw (e, repeat)

  shorter :
      (s : S) (t : Text) (r : Round S R) (rest : Text)
      → Consumes
      → body s t ≡ ok (r, rest)
      → length rest < length t
  shorter s t r rest consumes e = rw e at (consumes s t)

  -- More fuel than input changes nothing.
  pub repeat-fuel :
      Consumes
      → (f g : ℕ) (s : S) (t : Text) → length t < f
      → length t < g
      → repeat body f s t ≡ repeat body g s t
  repeat-fuel consumes zero g s t h k = absurd (omega arith)
  repeat-fuel consumes (suc f) zero s t h k = absurd (omega arith)
  repeat-fuel consumes (suc f) (suc g) s t h k = elim (Expected-cases (body s t)) [
    | inl ((again s', rest), e) ↦
        let fewer = shorter s t (again s') rest consumes e in
        repeat-again f s t e
        ∙ repeat-fuel consumes f g s' rest (omega arith) (omega arith)
        ∙ sym (repeat-again g s t e)
    | inl ((finished r, rest), e) ↦ repeat-finished f s t e ∙ sym (repeat-finished g s t e)
    | inr (x, e) ↦ repeat-unexpected f s t e ∙ sym (repeat-unexpected g s t e)
  ]

  -- What a derivation ends with is the result of the loop.
  pub Runs-repeat :
      Consumes
      → (fuel : ℕ) {s : S} {t : Text} {r : R} {rest : Text} → Runs body s t r rest
      → length t < fuel
      → repeat body fuel s t ≡ ok (r, rest)
  Runs-repeat consumes zero run h = absurd (omega arith)
  Runs-repeat consumes (suc fuel) (leaves {s} {t} e) h = repeat-finished fuel s t e
  Runs-repeat consumes (suc fuel) (stays {s} {s'} {t} {u} e run) h =
      let fewer = shorter s t (again s') u consumes e in
      repeat-again fuel s t e ∙ Runs-repeat consumes fuel run (omega arith)

  pub repeat-Below :
      Consumes → (fuel : ℕ) (s : S) (t : Text) → Below (suc (length t)) (repeat body fuel s t)
  unfolding repeat
  repeat-Below consumes zero s t = tt
  repeat-Below consumes (suc fuel) s t = elim (Expected-cases (body s t)) [
    | inl ((again s', rest), e) ↦
        let fewer = shorter s t (again s') rest consumes e in
        rw (e, repeat)
          (Below-mono (repeat body fuel s' rest) (omega arith) (repeat-Below consumes fuel s' rest))
    | inl ((finished r, rest), e) ↦
        let fewer = shorter s t (finished r) rest consumes e in rw (e, repeat) (omega arith)
    | inr (x, e) ↦ rw (e, repeat) tt
  ]
