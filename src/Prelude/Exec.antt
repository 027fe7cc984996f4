-- ===== src/Prelude/Exec.antt =====
-- Code that changes a state and may raise. What was written before a raise stays written until a
-- transaction takes it back, so the state comes back beside the error too.
use mathlib.Core.Path.{◌≡◌, refl, sym, ap, subst}
use mathlib.Core.Bool.{Bool, true, false}
use mathlib.Core.Option.{Option, none, some}
use mathlib.Core.Logic.{◌⊎◌, inl, inr}

pub data Result (E A : Type 0) : Type 0 where
  ok : A → Result E A
  err : E → Result E A

abbrev pub Exec : Type 0 → Type 0 → Type 0 → Type 0
Exec S E A = S → Result E A × S

module _ {S E A : Type 0} where
  abbrev pub pure : A → Exec S E A
  pure a s = (ok a, s)

  abbrev pub raise : E → Exec S E A
  raise e s = (err e, s)

  abbrev pub gets : (S → A) → Exec S E A
  gets f s = (ok (f s), s)

  abbrev pub lift : Result E A → Exec S E A
  lift r s = (r, s)

  abbrev pub or_raise : Option A → E → Exec S E A
  or_raise none e = raise e
  or_raise (some a) e = pure a

module _ {S E : Type 0} where
  abbrev pub modify : (S → S) → Exec S E (Unit {0})
  modify f s = (ok tt, f s)

  abbrev pub raise_if : Bool → E → Exec S E (Unit {0})
  raise_if true e s = (err e, s)
  raise_if false e s = (ok tt, s)

module _ {S E A B : Type 0} where
  abbrev pub continue : Result E A → S → (A → Exec S E B) → Result E B × S
  continue (ok a) s f = f a s
  continue (err e) s f = (err e, s)

  infixl 5 ◌>>=◌ ◌>>◌
  unfoldable pub ◌>>=◌ : Exec S E A → (A → Exec S E B) → Exec S E B
  ◌>>=◌ m f s = let (r, s') = m s in continue r s' f

  abbrev pub ◌>>◌ : Exec S E A → Exec S E B → Exec S E B
  m >> k = m >>= λ _. k

  continue-eq-ok :
      (r : Result E A) (s : S) (f : A → Exec S E B) {b : B} {t : S}
      → continue r s f ≡ (ok b, t)
      → (a : A) × (r ≡ ok a) × (f a s ≡ (ok b, t))
  continue-eq-ok (ok a) s f h = (a, refl, h)
  continue-eq-ok (err e) s f h = cc

  -- Inversion of a successful bind: the state between the two parts, and what the first returned.
  pub >>=-eq-ok :
      (m : Exec S E A) (f : A → Exec S E B) (s : S) {b : B} {t : S}
      → (m >>= f) s ≡ (ok b, t)
      → (a : A) × (s' : S) × (m s ≡ (ok a, s')) × (f a s' ≡ (ok b, t))
  unfolding ◌>>=◌
  >>=-eq-ok m f s h =
      let (a, p, q) = continue-eq-ok (m s).0 (m s).1 f h in (a, (m s).1, (λ i. (p i, (m s).1)), q)

  -- A bind whose first part returns goes on with the rest.
  pub >>=-ok :
      (m : Exec S E A) (f : A → Exec S E B) (s : S) {a : A} {s' : S}
      → m s ≡ (ok a, s')
      → (m >>= f) s ≡ f a s'
  unfolding ◌>>=◌
  >>=-ok m f s h = rw h

pub raise_if-eq-ok :
    {S E : Type 0} (c : Bool) (e : E) (s : S) {u : Unit {0}} {t : S}
    → raise_if c e s ≡ (ok u, t)
    → (c ≡ false) × (t ≡ s)
raise_if-eq-ok true e s h = cc
raise_if-eq-ok false e s h = (refl, cc)

-- A guard that lets the rest run, both ways.
module _ {S E A : Type 0} (c : Bool) (e : E) (m : Exec S E A) (s : S) {a : A} {t : S} where
  pub guarded-eq-ok : (raise_if c e >> m) s ≡ (ok a, t) → (c ≡ false) × (m s ≡ (ok a, t))
  guarded-eq-ok h =
      let (u, s', p, q) = >>=-eq-ok (raise_if c e) (λ _. m) s h in
      let (passes, same) = raise_if-eq-ok c e s p in (passes, subst (λ x. m x ≡ (ok a, t)) same q)

  pub guarded-ok : c ≡ false → m s ≡ (ok a, t) → (raise_if c e >> m) s ≡ (ok a, t)
  unfolding ◌>>=◌
  guarded-ok passes h = rw passes h

-- Inversion of a bind whose first part reads the state or computes: the state stays.
module _ {S E A B : Type 0} (f : A → Exec S E B) (s : S) {b : B} {t : S} where
  pub gets->>=-eq-ok : (g : S → A) → (gets g >>= f) s ≡ (ok b, t) → f (g s) s ≡ (ok b, t)
  unfolding ◌>>=◌
  gets->>=-eq-ok g h = h

  pub or_raise->>=-eq-ok :
      (o : Option A) (e : E)
      → (or_raise o e >>= f) s ≡ (ok b, t)
      → (a : A) × (o ≡ some a) × (f a s ≡ (ok b, t))
  unfolding ◌>>=◌
  or_raise->>=-eq-ok none e h = cc
  or_raise->>=-eq-ok (some a) e h = (a, refl, h)

  pub lift->>=-eq-ok :
      (r : Result E A) → (lift r >>= f) s ≡ (ok b, t) → (a : A) × (r ≡ ok a) × (f a s ≡ (ok b, t))
  unfolding ◌>>=◌
  lift->>=-eq-ok (ok a) h = (a, refl, h)
  lift->>=-eq-ok (err e) h = cc

module _ {S E A : Type 0} (a : A) (s : S) where
  result_or : Result E A → A
  result_or (ok b) = b
  result_or (err e) = a

  pub pure-eq-ok : {b : A} {t : S} → pure {E = E} a s ≡ (ok b, t) → (a ≡ b) × (t ≡ s)
  unfolding result_or
  pure-eq-ok h = (ap (λ x. result_or x.0) h, sym (ap (λ x. x.1) h))

-- A guarded block that raises left the state alone or raises behind the guard.
pub guarded-eq-err :
    {S E A : Type 0} (c : Bool) (e : E) (m : Exec S E A) (s : S) {e' : E} {t : S}
    → (raise_if c e >> m) s ≡ (err e', t)
    → (t ≡ s) ⊎ (m s ≡ (err e', t))
unfolding ◌>>=◌
guarded-eq-err true e m s h = inl cc
guarded-eq-err false e m s h = inr h
