-- ===== src/Contract/Monad.antt =====
-- A method of the contract takes the state and ends in a panic, or in its result and the new
-- state. A panic loses the new state, as NEAR reverts the changes of a call that panics.
use oysterpack_near_stake_to.Prelude.{
  ◌≡◌, refl, Bool, true, false, [], ◌∷◌, ◌++◌, Option, none, some,
}
use oysterpack_near_stake_to.Near.Error.{Error, Result, ok, err}
use oysterpack_near_stake_to.Near.Error
use oysterpack_near_stake_to.Contract.State.{Contract, Promise}

abbrev pub M : Type 0 → Type 0
M A = Contract → Result (A × Contract)

abbrev pub pure : {A : Type 0} → A → M A
pure a c = ok (a, c)

abbrev pub panic : {A : Type 0} → Error → M A
panic e c = err e

infixl 5 ◌>>=◌ ◌>>◌
abbrev pub ◌>>=◌ : {A B : Type 0} → M A → (A → M B) → M B
◌>>=◌ m f c = elim (m c) [ ok r ↦ f r.0 r.1 | err e ↦ err e ]

abbrev pub ◌>>◌ : {Next : Type 0} → M (Unit {0}) → M Next → M Next
step >> rest = step >>= λ _. rest

abbrev pub lift : {A : Type 0} → Result A → M A
lift r c = elim r [ ok a ↦ ok (a, c) | err e ↦ err e ]

abbrev pub assert : Bool → Error → M (Unit {0})
assert b e = lift (Error.assert b e)

abbrev pub expect : {A : Type 0} → Option A → Error → M A
expect o e = lift (Error.expect o e)

abbrev pub self : M Contract
self c = ok (c, c)

abbrev pub modify : (Contract → Contract) → M (Unit {0})
modify f c = ok (tt, f c)

-- A promise is scheduled behind those that the call has scheduled before.
abbrev pub schedule : Promise → M (Unit {0})
schedule p c = ok (tt, record c { promises = c.promises ++ p ∷ [] })

pub >>=-eq-ok :
    {A B : Type 0} (m : M A) (f : A → M B) (c : Contract) {r : B × Contract}
    → (m >>= f) c ≡ ok r
    → (s : A × Contract) × (m c ≡ ok s) × (f s.0 s.1 ≡ ok r)
>>=-eq-ok m f c {r} h = split (m c) refl h
  where
    split :
        (q : Result (_ × Contract))
        → m c ≡ q
        → (elim q [ ok r ↦ f r.0 r.1 | err e ↦ err e ]) ≡ ok r
        → (s : _ × Contract) × (m c ≡ ok s) × (f s.0 s.1 ≡ ok r)
    split (ok s) e k = (s, e, k)
    split (err x) e k = cc

-- Inversion of a fallible step that leaves the state alone.
pub lift-eq-ok :
    {A B : Type 0} (m : Result A) (f : A → M B) (c : Contract) {r : B × Contract}
    → (lift m >>= f) c ≡ ok r
    → (a : A) × (m ≡ ok a) × (f a c ≡ ok r)
lift-eq-ok (ok a) f c h = (a, refl, h)
lift-eq-ok (err e) f c h = cc

pub expect-eq-ok :
    {A B : Type 0} (o : Option A) (e : Error) (f : A → M B) (c : Contract) {r : B × Contract}
    → (expect o e >>= f) c ≡ ok r
    → (a : A) × (o ≡ some a) × (f a c ≡ ok r)
expect-eq-ok (some a) e f c h = (a, refl, h)
expect-eq-ok none e f c h = cc

pub assert-eq-ok :
    {B : Type 0} (b : Bool) (e : Error) (k : M B) (c : Contract) {r : B × Contract}
    → (assert b e >> k) c ≡ ok r
    → (b ≡ true) × (k c ≡ ok r)
assert-eq-ok true e k c h = (refl, h)
assert-eq-ok false e k c h = cc
