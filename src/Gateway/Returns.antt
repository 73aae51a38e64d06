-- ===== src/Gateway/Returns.antt =====
-- Rules on a block that returned: each statement before its last returned too.
use multi_agent_aircraft_dev.Base.{
  String, ◌≡◌, refl, subst, Bool, true, false, Option, none, some, arith,
}
use multi_agent_aircraft_dev.Errors.{ValueError, ServiceError, Exception, Result, ok, err}
use multi_agent_aircraft_dev.Gateway.World.{
  World, Action, or_raise, lift, ask, ◌>>=◌, ◌>>◌, refuse_if,
}

-- `m`, started in `w`, returned `a` and left `v`.
abbrev pub Returns : {A : Type 0} → Action A → World → A → World → Type 0
Returns m w a v = m w ≡ (ok a, v)

pair_cases :
    {A B : Type 0} (r : Result Exception A) (u : World) (f : A → Action B) {b : B} {v : World}
    → Returns ((λ _. (r, u)) >>= f) u b v
    → (a : A) × (r ≡ ok a) × Returns (f a) u b v
pair_cases (ok a) u f h = (a, refl, h)
pair_cases (err e) u f h = absurd (ground arith)

module _ {A : Type 0} where
  pub bind-Returns :
      {B : Type 0} (m : Action A) (f : A → Action B) {w : World} {b : B} {v : World}
      → Returns (m >>= f) w b v
      → (a : A) × (u : World) × Returns m w a u × Returns (f a) u b v
  bind-Returns m f {w} h =
      let (r, u) = m w in let (a, e, k) = pair_cases r u f h in (a, u, rw e refl, k)

  pub or_raise-Returns :
      (o : Option A) (e : ServiceError) {w : World} {a : A} {v : World}
      → Returns (or_raise o e) w a v
      → (o ≡ some a) × (v ≡ w)
  or_raise-Returns none e h = absurd (ground arith)
  or_raise-Returns (some b) e h = ground arith

  pub lift-Returns :
      (r : Result ValueError A) {w : World} {a : A} {v : World}
      → Returns (lift r) w a v
      → (r ≡ ok a) × (v ≡ w)
  lift-Returns (ok b) h = ground arith
  lift-Returns (err e) h = absurd (ground arith)

  pub ask-Returns :
      (r : Result String A) {w : World} {a : A} {v : World}
      → Returns (ask r) w a v
      → (r ≡ ok a) × (v ≡ w)
  ask-Returns (ok b) h = ground arith
  ask-Returns (err e) h = absurd (ground arith)

pub refuse_if-Returns :
    (b : Bool) (e : ServiceError) {w : World} {u : Unit {0}} {v : World}
    → Returns (refuse_if b e) w u v
    → (b ≡ false) × (v ≡ w)
refuse_if-Returns true e h = absurd (ground arith)
refuse_if-Returns false e h = ground arith

-- A test that leaves the state as it is, and what follows it.
pub check-Returns :
    {A : Type 0} (m : Action (Unit {0})) (k : Action A) (P : Type 0) {w : World} {a : A} {v : World}
    → ((u : Unit {0}) (x : World) → Returns m w u x → (x ≡ w) × P)
    → Returns (m >> k) w a v
    → P × Returns k w a v
check-Returns m k P {w} {a} {v} passes h =
    let (_, x, first, rest) = bind-Returns m (λ _. k) h in
    let (same, p) = passes _ x first in (p, subst (λ y. Returns k y a v) same rest)
