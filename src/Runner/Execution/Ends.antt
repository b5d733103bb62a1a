-- ===== src/Runner/Execution/Ends.antt =====
-- How the loop of `executeAndStore` ends.
use buildbox_common.Prelude.{
  ℕ, zero, suc, ◌≤◌, ◌≡◌, ◌≢◌, refl, ap, ◌∙◌, arith, ◌==◌, ==_iff, inl, inr, Option, Text,
  Bool-cases,
}
use buildbox_common.SystemUtils.{eintr, WaitStatus, wait_failed, exit_code, waited_of, wait_pid}
use buildbox_common.SystemUtils.Reaped.{Reaped, wait_pid-Reaped}
use buildbox_common.Runner.{ActionResult}
use buildbox_common.Runner.Execution.{
  Executor, Execution, stored, execution_ended, after_kill, after_wait, wait_loop,
}

module _ (E : Executor) where
  -- The waits are interrupted for a while, and each time no signal to the runner has been stored.
  pub data Waiting : E.World → E.World → Type 0 where
    reached : (w : E.World) → Waiting w w
    resumed :
        (w v u : E.World)
        → E.signal_status w ≡ 0
        → E.waitpid w ≡ (wait_failed eintr, v)
        → Waiting v u
        → Waiting w u

  module _ (files : Option (Text × Text)) (result : ActionResult) where
    quiet_round :
        (fuel : ℕ) (w v : E.World) (status : WaitStatus)
        → E.signal_status w ≡ 0
        → E.waitpid w ≡ (status, v)
        → wait_loop E (suc fuel) files result w
          ≡ after_wait E files result (wait_loop E fuel files result) (waited_of status, v)
    unfolding wait_loop
    quiet_round fuel w v status q e =
        rw (q, wait_loop)
          (ap
            (λ (x : WaitStatus × E.World).
              after_wait E files result (wait_loop E fuel files result) (waited_of x.0, x.1))
            e)

    -- What holds of the loop from some fuel on.
    abbrev Settles : E.World → Execution E.World → Type 0
    Settles w r = (least : ℕ) × ((fuel : ℕ) → least ≤ fuel → wait_loop E fuel files result w ≡ r)

    again-Settles :
        (w u : E.World) (r : Execution E.World) → Waiting w u → Settles u r → Settles w r
    again-Settles w _ r (reached _) k = k
    again-Settles w u r (resumed _ v _ q e rest) k =
        let (least, m) = again-Settles v u r rest k in (suc least, later least m)
      where
        later :
            (least : ℕ)
            → ((fuel : ℕ) → least ≤ fuel → wait_loop E fuel files result v ≡ r)
            → (fuel : ℕ) → suc least ≤ fuel
            → wait_loop E fuel files result w ≡ r
        later least m zero h = absurd (omega arith)
        later least m (suc fuel) h =
            quiet_round fuel w v (wait_failed eintr) q e
            ∙ (unfold waited_of in m fuel (omega arith))

    ended-Settles :
        (u v : E.World) (status : WaitStatus) (code : ℕ)
        → E.signal_status u ≡ 0
        → E.waitpid u ≡ (status, v)
        → waited_of status ≡ exit_code code
        → Settles u (execution_ended E files result code v)
    ended-Settles u v status code q e same = (1, once)
      where
        once :
            (fuel : ℕ)
            → 1 ≤ fuel
            → wait_loop E fuel files result u ≡ execution_ended E files result code v
        once zero h = absurd (omega arith)
        once (suc fuel) h = quiet_round fuel u v status q e ∙ rw same refl

    -- If no signal to the runner is stored while its waits are interrupted, and then a wait reports the
    -- child's end, the loop ends from some fuel on, and what follows is done once, with the exit code
    -- that was reported, in the world after that wait.
    pub wait_loop-ended :
        (w u v : E.World) (status : WaitStatus) (code : ℕ)
        → Waiting w u
        → E.signal_status u ≡ 0
        → E.waitpid u ≡ (status, v)
        → waited_of status ≡ exit_code code
        → (least : ℕ) × ((fuel : ℕ)
            → least ≤ fuel
            → wait_loop E fuel files result w ≡ execution_ended E files result code v)
    wait_loop-ended w u v status code waits q e same =
        again-Settles w u (execution_ended E files result code v) waits
          (ended-Settles u v status code q e same)

    signal_round :
        (fuel : ℕ) (u : E.World)
        → E.signal_status u ≢ 0
        → wait_loop E (suc fuel) files result u
          ≡ after_kill E result (wait_pid E.waitpid (suc fuel) (E.kill u))
    unfolding wait_loop
    signal_round fuel u ne = elim (Bool-cases (E.signal_status u == 0)) [
      | inl same ↦ absurd (ne ((==_iff (E.signal_status u) 0).0 same))
      | inr other ↦ rw (other, wait_loop) refl
    ]

    signalled-Settles :
        (u v : E.World) (code : ℕ)
        → E.signal_status u ≢ 0
        → Reaped E.waitpid (E.kill u) code v
        → Settles u (stored result v)
    signalled-Settles u v code ne r =
        let (_, least, k) = wait_pid-Reaped E.waitpid (E.kill u) v code r in
        (suc least, stop least k)
      where
        stop :
            (least : ℕ)
            → ((fuel : ℕ) → least ≤ fuel → wait_pid E.waitpid fuel (E.kill u) ≡ (exit_code code, v))
            → (fuel : ℕ) → suc least ≤ fuel
            → wait_loop E fuel files result u ≡ stored result v
        stop least k zero h = absurd (omega arith)
        stop least k (suc fuel) h =
            signal_round fuel u ne ∙ ap (after_kill E result) (k (suc fuel) (omega arith))

    -- If a signal to the runner is found stored after some interrupted waits, and the child is reported
    -- to have ended after it was killed, the loop ends from some fuel on: the child has been killed and
    -- waited for, and the result is stored as it was, without an exit code or outputs.
    pub wait_loop-signalled :
        (w u v : E.World) (code : ℕ)
        → Waiting w u
        → E.signal_status u ≢ 0
        → Reaped E.waitpid (E.kill u) code v
        → (least : ℕ) × ((fuel : ℕ)
            → least ≤ fuel
            → wait_loop E fuel files result w ≡ stored result v)
    wait_loop-signalled w u v code waits ne r =
        again-Settles w u (stored result v) waits (signalled-Settles u v code ne r)
