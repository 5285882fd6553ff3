-- ===== src/Json/Members.antt =====
-- The rounds of the loop over the members of an object.
use packet_switch.Json.{
  Scanned, Scanner, follow, read_string, again, finished, member_round, ControlParseError,
}
use packet_switch.Prelude.Texts.{Text}
use packet_switch.Prelude.{◌≡◌, ok, ◌∷◌, refl, ◌∙◌, unexpected}

pub follow-ok :
    {A B : Type 0} {r : Scanned A} {a : A} {rest : Text} (f : A → Scanner B)
    → r ≡ ok (a, rest)
    → follow r f ≡ f a rest
unfolding follow
follow-ok f e = rw (e, follow) refl

pub member_round-comma :
    {S : Type 0} (member : Text → S → Scanner S) (key : Text) (s s' : S) (t value rest : Text)
    → read_string t ≡ ok (key, b':' ∷ value)
    → member key s value ≡ ok (s', b',' ∷ rest)
    → member_round member s t ≡ ok (again s', rest)
unfolding member_round
member_round-comma member key s s' t value rest e h = follow-ok _ e ∙ follow-ok _ h

pub member_round-brace :
    {S : Type 0} (member : Text → S → Scanner S) (key : Text) (s s' : S) (t value rest : Text)
    → read_string t ≡ ok (key, b':' ∷ value)
    → member key s value ≡ ok (s', b'}' ∷ rest)
    → member_round member s t ≡ ok (finished s', rest)
unfolding member_round
member_round-brace member key s s' t value rest e h = follow-ok _ e ∙ follow-ok _ h

pub follow-unexpected :
    {A B : Type 0} {r : Scanned A} {x : ControlParseError} (f : A → Scanner B)
    → r ≡ unexpected x
    → follow r f ≡ unexpected x
unfolding follow
follow-unexpected f e = rw (e, follow) refl

pub member_round-unexpected :
    {S : Type 0} (member : Text → S → Scanner S) (key : Text) (s : S) (t value : Text)
    {x : ControlParseError}
    → read_string t ≡ ok (key, b':' ∷ value)
    → member key s value ≡ unexpected x
    → member_round member s t ≡ unexpected x
unfolding member_round
member_round-unexpected member key s t value e h = follow-ok _ e ∙ follow-unexpected _ h
