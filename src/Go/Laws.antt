-- ===== src/Go/Laws.antt =====
-- Inversion of the functions with effects.
use skopeo.Prelude.{ap, ◌∙◌, Bool, true, false, if◌then◌else◌, arith, ◌⊎◌, inl, inr, ◌≡◌, refl}
use skopeo.Go.{lift, reject_if, or_wrap, map_error, GoError, Result, ok, err, Exec, continue}

module _ {W A B : Type 0} where
  -- A successful sequence: its first part succeeded, and so did the rest from there.
  pub continue-eq-ok :
      (r : Result A × W) (f : A → Exec W B) {b : B} {w' : W}
      → continue r f ≡ (ok b, w')
      → (a : A) × (v : W) × (r ≡ (ok a, v)) × (f a v ≡ (ok b, w'))
  continue-eq-ok (ok a, v) f h = (a, v, refl, h)
  continue-eq-ok (err e, v) f h = cc

  -- A failed sequence: its first part failed, or the rest did.
  pub continue-eq-err :
      (r : Result A × W) (f : A → Exec W B) {e : GoError} {w' : W}
      → continue r f ≡ (err e, w')
      → (r ≡ (err e, w')) ⊎ ((a : A) × (v : W) × (r ≡ (ok a, v)) × (f a v ≡ (err e, w')))
  continue-eq-err (ok a, v) f h = inr (a, v, refl, h)
  continue-eq-err (err e, v) f h = inl (ground arith)

module _ {ℓ} {A : Type ℓ} where
  pub Result-cases : (r : Result A) → ((a : A) × (r ≡ ok a)) ⊎ ((e : GoError) × (r ≡ err e))
  Result-cases (ok a) = inl (a, refl)
  Result-cases (err e) = inr (e, refl)

module _ {W A : Type 0} where
  -- How a function with effects has ended.
  pub run_cases :
      (r : Result A × W)
      → ((a : A) × (w : W) × (r ≡ (ok a, w))) ⊎ ((e : GoError) × (w : W) × (r ≡ (err e, w)))
  run_cases (ok a, w) = inl (a, w, refl)
  run_cases (err e, w) = inr (e, w, refl)

module _ {W A B : Type 0} where
  pub continue_cong :
      (r : Result A × W) (f g : A → Exec W B)
      → ((a : A) (v : W) → f a v ≡ g a v)
      → continue r f ≡ continue r g
  continue_cong (ok a, v) f g h = h a v
  continue_cong (err e, v) f g h = refl

module _ {W A B C : Type 0} where
  pub continue_assoc :
      (r : Result A × W) (f : A → Exec W B) (g : B → Exec W C)
      → continue (continue r f) g ≡ continue r (λ a v. continue (f a v) g)
  continue_assoc (ok a, v) f g = refl
  continue_assoc (err e, v) f g = refl

module _ {W A : Type 0} where
  pub or_wrap-eq-ok :
      (f : GoError → GoError) (m : Exec W A) (w : W) {a : A} {w' : W}
      → or_wrap f m w ≡ (ok a, w')
      → m w ≡ (ok a, w')
  or_wrap-eq-ok f m w {a} {w'} h = wrapped_ok (m w) h
    where
      wrapped_ok :
          (r : Result A × W)
          → ◌≡◌ {A = Result A × W} (map_error f r.0, r.1) (ok a, w')
          → r ≡ (ok a, w')
      wrapped_ok (ok b, v) e = e
      wrapped_ok (err e', v) e = cc

-- The same inversions for a chain of steps: what follows takes the parts as variables.
module _ {W A B P : Type 0} where
  pub step_ok :
      (r : Result A × W) (f : A → Exec W B) {b : B} {w' : W}
      → continue r f ≡ (ok b, w')
      → ((a : A) (v : W) → r ≡ (ok a, v) → f a v ≡ (ok b, w') → P)
      → P
  step_ok (ok a, v) f h k = k a v refl h
  step_ok (err e, v) f h k = cc

  pub lift_ok :
      (r : Result A) (f : A → Exec W B) (w : W) {b : B} {w' : W}
      → continue (r, w) f ≡ (ok b, w')
      → ((a : A) → r ≡ ok a → f a w ≡ (ok b, w') → P)
      → P
  lift_ok (ok a) f w h k = k a refl h
  lift_ok (err e) f w h k = cc

module _ {W B P : Type 0} where
  pub reject_if_ok :
      (test : Bool) (e : GoError) (f : Unit {0} → Exec W B) (w : W) {b : B} {w' : W}
      → continue (reject_if test e w) f ≡ (ok b, w')
      → (test ≡ false → f tt w ≡ (ok b, w') → P)
      → P
  reject_if_ok true e f w h k = cc
  reject_if_ok false e f w h k = k refl h

  pub if_ok :
      (test : Bool) (m n : Exec W B) (w : W) {r : Result B × W}
      → (if test then m else n) w ≡ r
      → (test ≡ true → m w ≡ r → P)
      → (test ≡ false → n w ≡ r → P)
      → P
  if_ok true m n w h k l = k refl h
  if_ok false m n w h k l = l refl h

module _ {W A B P : Type 0} where
  pub or_wrap-lift_ok :
      (f : GoError → GoError) (r : Result A) (g : A → Exec W B) (w : W) {b : B} {w' : W}
      → continue (or_wrap f (lift r) w) g ≡ (ok b, w')
      → ((a : A) → r ≡ ok a → g a w ≡ (ok b, w') → P)
      → P
  or_wrap-lift_ok f (ok a) g w h k = k a refl h
  or_wrap-lift_ok f (err e) g w h k = cc

-- The other way: a chain of steps that succeed.
module _ {W A B : Type 0} where
  pub then_ok :
      (r : Result A × W) (f : A → Exec W B) {a : A} {v : W} {end : Result B × W}
      → r ≡ (ok a, v)
      → f a v ≡ end
      → continue r f ≡ end
  then_ok r f p q = ap (λ x. continue x f) p ∙ q

  pub then_lift :
      (r : Result A) (f : A → Exec W B) (w : W) {a : A} {end : Result B × W}
      → r ≡ ok a
      → f a w ≡ end
      → continue (r, w) f ≡ end
  then_lift r f w p q = ap (λ x. continue (x, w) f) p ∙ q

module _ {W A : Type 0} where
  pub or_wrap_of_ok :
      (f : GoError → GoError) (m : Exec W A) (w : W) {a : A} {v : W}
      → m w ≡ (ok a, v)
      → or_wrap f m w ≡ (ok a, v)
  or_wrap_of_ok f m w p = ap (λ r. (map_error f r.0, r.1)) p

module _ {W A : Type 0} where
  pub pure-eq-ok :
      {a b : A} {v w : W} → ◌≡◌ {A = Result A × W} (ok a, v) (ok b, w) → (a ≡ b) × (v ≡ w)
  pure-eq-ok {a} {b} {v} {w} h =
      let p : ok a ≡ ok b = ap (λ (r : Result A × W). r.0) h in
      (cc, ap (λ (r : Result A × W). r.1) h)

module _ {W B : Type 0} where
  pub then_true :
      (test : Bool) (m n : Exec W B) (w : W) {r : Result B × W}
      → test ≡ true
      → m w ≡ r
      → (if test then m else n) w ≡ r
  then_true test m n w p h = ap (λ b. (if b then m else n) w) p ∙ h

  pub then_false :
      (test : Bool) (m n : Exec W B) (w : W) {r : Result B × W}
      → test ≡ false
      → n w ≡ r
      → (if test then m else n) w ≡ r
  then_false test m n w p h = ap (λ b. (if b then m else n) w) p ∙ h
