-- ===== src/Prelude/Results.antt =====
-- A fallible step: a value or an error of the component's own.
use mathlib.Core.Path.{◌≡◌, refl, ap}
use mathlib.Core.Logic.{◌↔◌, ◌⊎◌, inl, inr}
use mathlib.Core.Bool.{Bool, true, false}
use mathlib.Core.Option.{Option, none, some}

pub data Result {ℓ κ} (E : Type ℓ) (A : Type κ) : Type (ℓ ⊔ κ) where
  ok : A → Result E A
  err : E → Result E A

infixl 5 ◌>>=◌ ◌>>◌
abbrev pub ◌>>=◌ {ℓ κ μ} :
    {E : Type ℓ} {A : Type κ} {B : Type μ} → Result E A → (A → Result E B) → Result E B
err e >>= step = err e
ok a >>= step = step a

abbrev pub ◌>>◌ {ℓ κ} : {E : Type ℓ} {B : Type κ} → Result E (Unit {0}) → Result E B → Result E B
m >> k = m >>= λ _. k

abbrev pub require {ℓ} : {E : Type ℓ} → Bool → E → Result E (Unit {0})
require true e = ok tt
require false e = err e

abbrev pub or_fail {ℓ κ} : {E : Type ℓ} {A : Type κ} → Option A → E → Result E A
or_fail none e = err e
or_fail (some a) e = ok a

abbrev pub map_err {ℓ κ μ} :
    {E : Type ℓ} {F : Type κ} {A : Type μ} → (E → F) → Result E A → Result F A
map_err f (ok a) = ok a
map_err f (err e) = err (f e)

-- A chain that succeeds had a first step that succeeds.
pub >>=-eq-ok {ℓ κ μ} :
    {E : Type ℓ} {S : Type κ} {T : Type μ} (r : Result E S) (step : S → Result E T) {t : T}
    → (r >>= step) ≡ ok t
    → (s : S) × (r ≡ ok s) × (step s ≡ ok t)
>>=-eq-ok (err e) step q = cc
>>=-eq-ok (ok s) step q = (s, refl, q)

pub Result-cases {ℓ κ} :
    {E : Type ℓ} {A : Type κ} (r : Result E A) → ((a : A) × (r ≡ ok a)) ⊎ ((e : E) × (r ≡ err e))
Result-cases (ok a) = inl (a, refl)
Result-cases (err e) = inr (e, refl)

pub ok_injective {ℓ κ} :
    {E : Type ℓ} {A : Type κ} {a b : A} → ◌≡◌ {A = Result E A} (ok a) (ok b) → a ≡ b
ok_injective h = cc

pub some_injective {ℓ} : {A : Type ℓ} {a b : A} → some a ≡ some b → a ≡ b
some_injective h = cc

-- A check before a step.
pub require_iff {ℓ κ} :
    {E : Type ℓ} {A : Type κ} (b : Bool) (e : E) (k : Result E A) {t : A}
    → ((require b e >> k) ≡ ok t) ↔ ((b ≡ true) × (k ≡ ok t))
require_iff true e k = (λ h. (refl, h), λ h. h.1)
require_iff false e k = (λ h. cc, λ h. cc)

-- What a chain with a check gives once the check is named.
pub passed {ℓ κ} :
    {E : Type ℓ} {A : Type κ} (b : Bool) (e : E) {k : Result E A} {t : A}
    → (require b e >> k) ≡ ok t
    → (b ≡ true) × (k ≡ ok t)
passed b e {k} h = (require_iff b e k).0 h

pub or_fail-ok {ℓ κ} :
    {E : Type ℓ} {A : Type κ} (o : Option A) (e : E) {a : A} → or_fail o e ≡ ok a → o ≡ some a
or_fail-ok none e h = absurd cc
or_fail-ok (some b) e h = ap some (ok_injective h)

pub map_err-ok {ℓ κ μ} :
    {E : Type ℓ} {F : Type κ} {A : Type μ} (f : E → F) (r : Result E A) {a : A}
    → map_err f r ≡ ok a
    → r ≡ ok a
map_err-ok f (ok b) h = ap ok (ok_injective h)
map_err-ok f (err e) h = absurd cc
