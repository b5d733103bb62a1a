-- ===== src/SystemUtils/Reaped.antt =====
-- How `waitPid` ends.
use buildbox_common.Prelude.{ℕ, zero, suc, ◌+◌, ◌≤◌, ◌<◌, ◌≡◌, refl, ap, ◌∙◌, arith}
use buildbox_common.SystemUtils.{
  eintr, WaitStatus, wait_failed, wait_exited, wait_signaled, exit_code, waited_of, keep_waiting,
  wait_pid,
}

module _ {W : Type 0} (waitpid : W → WaitStatus × W) where
  -- The calls of `waitpid` are interrupted for a while, and then the child's end is reported: an exit
  -- code, or the signal that killed it.
  pub data Reaped : W → ℕ → W → Type 0 where
    exits :
        (w w' : W) (code : ℕ) → waitpid w ≡ (wait_exited code, w') → code < 256 → Reaped w code w'
    killed :
        (w w' : W) (signal : ℕ)
        → waitpid w ≡ (wait_signaled signal, w')
        → signal < 128
        → Reaped w (128 + signal) w'
    interrupted :
        (w v w' : W) (code : ℕ)
        → waitpid w ≡ (wait_failed eintr, v)
        → Reaped v code w'
        → Reaped w code w'

  waited_once :
      (fuel : ℕ) (w v : W) (status : WaitStatus)
      → waitpid w ≡ (status, v)
      → wait_pid waitpid (suc fuel) w
        ≡ keep_waiting waitpid (wait_pid waitpid fuel) (waited_of status, v)
  unfolding wait_pid
  waited_once fuel w v status e =
      ap (λ (x : WaitStatus × W). keep_waiting waitpid (wait_pid waitpid fuel) (waited_of x.0, x.1))
        e

  once :
      (w v : W) (status : WaitStatus) (code : ℕ)
      → waitpid w ≡ (status, v)
      → waited_of status ≡ exit_code code
      → (fuel : ℕ) → 1 ≤ fuel
      → wait_pid waitpid fuel w ≡ (exit_code code, v)
  once w v status code e same zero h = absurd (omega arith)
  once w v status code e same (suc fuel) h = waited_once fuel w v status e ∙ rw same refl

  again :
      (w v w' : W) (code least : ℕ)
      → waitpid w ≡ (wait_failed eintr, v)
      → ((fuel : ℕ) → least ≤ fuel → wait_pid waitpid fuel v ≡ (exit_code code, w'))
      → (fuel : ℕ) → suc least ≤ fuel
      → wait_pid waitpid fuel w ≡ (exit_code code, w')
  again w v w' code least e k zero h = absurd (omega arith)
  again w v w' code least e k (suc fuel) h =
      waited_once fuel w v (wait_failed eintr) e ∙ (unfold waited_of in k fuel (omega arith))

  -- From some fuel on, `waitPid` waits on through each interruption and returns the exit code of the
  -- child, or 128 and its signal, which is below 256, in the world that the last call left: for calls of
  -- `waitpid` that are only interrupted until they report the child's end.
  pub wait_pid-Reaped :
      (w w' : W) (code : ℕ)
      → Reaped w code w'
      → (code < 256)
        × (least : ℕ) × ((fuel : ℕ) → least ≤ fuel → wait_pid waitpid fuel w ≡ (exit_code code, w'))
  wait_pid-Reaped w w' code (exits _ _ _ e small) =
      (small, 1, once w w' (wait_exited code) code e (unfold waited_of in refl))
  wait_pid-Reaped w w' _ (killed _ _ signal e small) =
      (omega arith, 1, once w w' (wait_signaled signal) (128 + signal) e (unfold waited_of in refl))
  wait_pid-Reaped w w' code (interrupted _ v _ _ e rest) =
      let (small, least, k) = wait_pid-Reaped v w' code rest in
      (small, suc least, again w v w' code least e k)
