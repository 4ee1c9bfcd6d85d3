-- ===== src/Go/Retry.antt =====
-- What package retry documents of `RetryIfNecessary`: the operation is run once, and again while it
-- fails and tries are left. The caller has the result of the last run.
use skopeo.Prelude.{ℕ, suc, ◌≡◌}
use skopeo.Go.{GoError, Result, err, Exec}

module _ {W A : Type 0} where
  -- From world `w` the runs of `m` end with `last`, with at most `n` retries.
  pub data Runs (m : Exec W A) (last : Result A × W) : ℕ → W → Type 0 where
    final : {n : ℕ} {w : W} → m w ≡ last → Runs m last n w
    again :
        {n : ℕ} {w w' : W} (e : GoError)
        → m w ≡ (err e, w')
        → Runs m last n w'
        → Runs m last (suc n) w
