-- ===== src/Go/Close.antt =====
-- Deferred closes that report their error by the named result:
-- `defer func() { if err := x.Close(); err != nil { retErr = errors.Wrapf(retErr, format, err) } }()`
use skopeo.Prelude.{◌≡◌, refl, ◌↔◌, Option, none, some, String, [], ap}
use skopeo.Go.{GoError, wrapped_of, Result, ok, err, error_of, Exec}

-- `errors.Wrapf(err, format, e)`, which is nil for a nil `err`
unfoldable pub wrapf_of : Option GoError → String → GoError → Option GoError
wrapf_of none format e = none
wrapf_of (some retErr) format e = some (wrapped_of retErr format [] e)

abbrev pub result_of : Option GoError → Result (Unit {0})
result_of none = ok tt
result_of (some e) = err e

unfoldable pub after_close : String → Result (Unit {0}) → Result (Unit {0}) → Result (Unit {0})
unfolding wrapf_of
after_close format r (ok _) = r
after_close format r (err e) = result_of (wrapf_of (error_of r) format e)

module _ {W : Type 0} where
  unfoldable pub closing : Exec W (Unit {0}) → String → Exec W (Unit {0}) → Exec W (Unit {0})
  closing close format body w =
      let (r, w') = body w in let (c, w'') = close w' in (after_close format r c, w'')

after_close-eq-ok :
    (format : String) (r c : Result (Unit {0})) → (after_close format r c ≡ ok tt) ↔ (r ≡ ok tt)
unfolding after_close
after_close-eq-ok format r (ok tt) = (λ h. h, λ h. h)
after_close-eq-ok format (ok tt) (err e) = (λ h. refl, λ h. refl)
after_close-eq-ok format (err e') (err e) = (λ h. cc, λ h. cc)

module _ {W : Type 0} where
  -- A function that closes something at its end succeeds exactly when its body does, and then the
  -- close was called in the world that the body left: an error of the close is lost.
  pub closing_iff :
      (close : Exec W (Unit {0})) (format : String) (body : Exec W (Unit {0})) (w w' : W)
      → (closing close format body w ≡ (ok tt, w'))
        ↔ ((v : W) × (body w ≡ (ok tt, v)) × ((close v).1 ≡ w'))
  unfolding closing
  closing_iff close format body w w' = (
    λ h. closed (body w) refl h,
    λ (v, p, q).
        rw (p, q) (ap (λ r. (r, w')) ((after_close-eq-ok format (ok tt) (close v).0).1 refl)),
  )
    where
      closed :
          (r : Result (Unit {0}) × W)
          → body w ≡ r
          → ◌≡◌ {A = Result (Unit {0}) × W}
              (after_close format r.0 (close r.1).0, (close r.1).1)
              (ok tt, w')
          → (v : W) × (body w ≡ (ok tt, v)) × ((close v).1 ≡ w')
      closed (ok tt, v) p e = (v, p, ap (λ r. r.1) e)
      closed (err e', v) p e =
          let absurd : err e' ≡ ok tt =
            (after_close-eq-ok format (err e') (close v).0).0 (ap (λ r. r.0) e) in
          cc
