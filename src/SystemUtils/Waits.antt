-- ===== src/SystemUtils/Waits.antt =====
-- What the loops on system calls return.
use buildbox_common.Prelude.{
  ℕ, zero, suc, ◌*◌, ◌%◌, ◌^◌, ◌≤◌, ◌<◌, ◌≡◌, ltb, arith, Text, length, if◌then◌else◌,
}
use buildbox_common.SystemUtils.{
  erange, CwdAnswer, cwd_is, cwd_failed, cwd, cwd_loop, get_current_working_directory,
}

some_power : (fuel : ℕ) → 1 ≤ 2 ^ fuel
some_power zero = omega arith
some_power (suc fuel) = omega (arith, some_power fuel)

scaled : (size power : ℕ) → 1 ≤ power → size ≤ size * power
scaled size (suc power) h = omega arith
scaled size zero h = absurd (omega arith)

doubled : (size fuel : ℕ) → size * 2 ^ suc fuel ≡ size * 2 * 2 ^ fuel
doubled size fuel = grind arith

-- `getcwd` for a directory whose path fits a buffer that is longer than it.
module _ (getcwd : ℕ → CwdAnswer) (dir : Text) where
  grown :
      (fuel size : ℕ)
      → ((n : ℕ)
          → 1 ≤ n
          → getcwd n ≡ (if ltb (length dir) n then cwd_is dir else cwd_failed erange))
      → 1 ≤ size
      → (size * 2) * 2 ^ fuel < 2 ^ 32
      → length dir < (size * 2) * 2 ^ fuel
      → ((m : ℕ)
          → 1 ≤ m
          → m * 2 ^ fuel < 2 ^ 32
          → length dir < m * 2 ^ fuel
          → cwd_loop getcwd (suc (suc fuel)) m ≡ cwd dir)
      → cwd_loop getcwd (suc (suc (suc fuel))) size ≡ cwd dir
  unfolding cwd_loop
  grown fuel size h s k l ih =
      let small : size * 2 < 2 ^ 32 =
        omega (arith, scaled (size * 2) (2 ^ fuel) (some_power fuel)) in
      let e : size * 2 % 2 ^ 32 ≡ size * 2 = omega arith in
      rw (h size s) (ground (arith, e, ih (size * 2 % 2 ^ 32)))

  loop-fits :
      (fuel size : ℕ)
      → ((n : ℕ)
          → 1 ≤ n
          → getcwd n ≡ (if ltb (length dir) n then cwd_is dir else cwd_failed erange))
      → 1 ≤ size
      → size * 2 ^ fuel < 2 ^ 32
      → length dir < size * 2 ^ fuel
      → cwd_loop getcwd (suc (suc fuel)) size ≡ cwd dir
  loop-fits zero size h s k l = unfold cwd_loop in rw (h size s) (ground arith)
  loop-fits (suc fuel) size h s k l =
      let e = doubled size fuel in
      grown fuel size h s (omega (arith, e)) (omega (arith, e)) (λ m. loop-fits fuel m h)

  -- For a working directory of less than 2^31 bytes, whose path `getcwd` returns to a buffer that is
  -- longer than it and refuses with ERANGE to one that is not, `get_current_working_directory` returns
  -- it.
  pub get_current_working_directory-fits :
      ((n : ℕ) → 1 ≤ n → getcwd n ≡ (if ltb (length dir) n then cwd_is dir else cwd_failed erange))
      → length dir < 2 ^ 31
      → get_current_working_directory getcwd ≡ cwd dir
  unfolding get_current_working_directory
  get_current_working_directory-fits h l =
      loop-fits 21 1024 h (omega arith) (omega arith) (omega arith)
