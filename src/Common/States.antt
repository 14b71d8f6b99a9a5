-- ===== src/Common/States.antt =====
-- Computations that change a state and may fail, with the bind that `?` makes: the state is kept
-- where they fail.
use mathlib.Core.Path.{◌≡◌, refl}
use mathlib.Core.Logic.{◌⊎◌, inl, inr}
use mercury_cortex_core.Common.Results.{Result, ok, err}

abbrev pub Run : Type 0 → Type 0 → Type 0 → Type 0
Run S E A = S → S × Result A E

abbrev pub continue : {S E A B : Type 0} → S × Result A E → (A → Run S E B) → S × Result B E
continue (s, ok a) next = next a s
continue (s, err e) next = (s, err e)

infixl 5 ◌>>=◌
abbrev pub ◌>>=◌ : {S E A B : Type 0} → Run S E A → (A → Run S E B) → Run S E B
(m >>= next) s = continue (m s) next

infixl 5 ◌>>◌
abbrev pub ◌>>◌ : {S E B : Type 0} → Run S E (Unit {0}) → Run S E B → Run S E B
m >> next = m >>= λ _. next

abbrev pub lift : {S E A : Type 0} → Result A E → Run S E A
lift r s = (s, r)

abbrev pub pure : {S E A : Type 0} → A → Run S E A
pure a s = (s, ok a)

abbrev pub fail : {S E A : Type 0} → E → Run S E A
fail e s = (s, err e)

-- A computation that succeeds has parts that do.
pub bind-eq-ok :
    {S E A B : Type 0} (m : Run S E A) (next : A → Run S E B) (s : S) {s' : S} {b : B}
    → (m >>= next) s ≡ (s', ok b)
    → (s1 : S) × (a : A) × (m s ≡ (s1, ok a)) × (next a s1 ≡ (s', ok b))
bind-eq-ok {S} {E} {A} {B} m next s {s'} {b} h = parts (m s) refl h
  where
    parts :
        (r : S × Result A E)
        → m s ≡ r
        → continue r next ≡ (s', ok b)
        → (s1 : S) × (a : A) × (m s ≡ (s1, ok a)) × (next a s1 ≡ (s', ok b))
    parts (s1, ok a) e h = (s1, a, e, h)
    parts (s1, err x) e h = cc h

-- A computation that fails has a part that does.
pub bind-eq-err :
    {S E A B : Type 0} (m : Run S E A) (next : A → Run S E B) (s : S) {s' : S} {e : E}
    → (m >>= next) s ≡ (s', err e)
    → (m s ≡ (s', err e)) ⊎ ((s1 : S) × (a : A) × (m s ≡ (s1, ok a)) × (next a s1 ≡ (s', err e)))
bind-eq-err {S} {E} {A} {B} m next s {s'} {e} h = parts (m s) refl h
  where
    parts :
        (r : S × Result A E)
        → m s ≡ r
        → continue r next ≡ (s', err e)
        → (m s ≡ (s', err e))
          ⊎ ((s1 : S) × (a : A) × (m s ≡ (s1, ok a)) × (next a s1 ≡ (s', err e)))
    parts (s1, ok a) g h = inr (s1, a, g, h)
    parts (s1, err x) g h = inl (cc (g, h))

pub lift-eq-ok :
    {S E A B : Type 0} (r : Result A E) (next : A → Run S E B) (s : S) {s' : S} {b : B}
    → (lift r >>= next) s ≡ (s', ok b)
    → (a : A) × (r ≡ ok a) × (next a s ≡ (s', ok b))
lift-eq-ok (ok a) next s h = (a, refl, h)
lift-eq-ok (err e) next s h = cc h

pub pure-eq-ok :
    {S E A : Type 0} (a : A) (s : S) {s' : S} {b : A}
    → pure {E = E} a s ≡ (s', ok b)
    → (s ≡ s') × (a ≡ b)
pure-eq-ok a s h = (cc h, cc h)
