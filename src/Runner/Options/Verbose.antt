-- ===== src/Runner/Options/Verbose.antt =====
-- The option `--verbose` of the runner.
use buildbox_common.Prelude.{
  ◌≡◌, refl, inl, inr, Bool, true, false, ◌||◌, List, [], ◌∷◌, Option, none, some, if◌then◌else◌,
  arith, Text, text_eq, text_eq→eq, codes, Bool-cases,
}
use buildbox_common.Connection.{strip, cut_assign, parse_rest, parse_arg}
use buildbox_common.Logging.{Logger, debug, set_output_directory, set_log_level}
use buildbox_common.Runner.{Runner, Host}
use buildbox_common.Runner.Options.{
  ParsedOptions, parsed_options, refused, exited, thrown, set_option, set_flag, own_named,
  own_option, parse_option, then_option, parse_arguments,
}

-- Neither of the flags of glog that `setLogLevel` tests is set.
abbrev pub IsSilent : Logger → Type 0
IsSilent l = l.flags_logtostderr || l.flags_alsologtostderr ≡ false

-- The arguments without each `--verbose`.
abbrev pub without_verbose : List Text → List Text
without_verbose [] = []
without_verbose (arg ∷ rest) =
    if text_eq arg (codes "--verbose") then without_verbose rest else arg ∷ without_verbose rest

module _ (H : Host) where
  abbrev KeepsSilent : ParsedOptions H.World → Type 0
  KeepsSilent (parsed_options r w) = IsSilent r.logger
  KeepsSilent (refused w) = Unit
  KeepsSilent (exited w) = Unit
  KeepsSilent (thrown w) = Unit

  set_level-same : (l : Logger) → IsSilent l → set_log_level l debug ≡ l
  unfolding set_log_level
  set_level-same l h = rw h

  flag-KeepsSilent :
      (r : Runner) (w : H.World) (arg : Text) → IsSilent r.logger → KeepsSilent (set_flag H r w arg)
  unfolding set_flag set_log_level
  flag-KeepsSilent r w arg h = ground arith

  assign-KeepsSilent :
      (r : Runner) (w : H.World) (key value : Text)
      → IsSilent r.logger
      → KeepsSilent (set_option H r w key value)
  unfolding set_option set_output_directory
  assign-KeepsSilent r w key value h = ground arith

  named-KeepsSilent :
      (r : Runner) (w : H.World) (arg : Text) (x : Text × Option Text)
      → IsSilent r.logger
      → KeepsSilent (own_named H r w arg x)
  named-KeepsSilent r w arg (key, none) h = flag-KeepsSilent r w arg h
  named-KeepsSilent r w arg (key, some value) h = assign-KeepsSilent r w key value h

  own-KeepsSilent :
      (r : Runner) (w : H.World) (t : Option Text)
      → IsSilent r.logger
      → KeepsSilent (own_option H r w t)
  own-KeepsSilent r w none h = tt
  own-KeepsSilent r w (some arg) h = named-KeepsSilent r w arg (cut_assign arg) h

  if-KeepsSilent :
      (b : Bool) (x y : ParsedOptions H.World)
      → KeepsSilent x
      → KeepsSilent y
      → KeepsSilent (if b then x else y)
  if-KeepsSilent true x y h k = h
  if-KeepsSilent false x y h k = k

  option-KeepsSilent :
      (r : Runner) (w : H.World) (arg : Text)
      → IsSilent r.logger
      → KeepsSilent (parse_option H r w arg)
  unfolding parse_option
  option-KeepsSilent r w arg h =
      let (taken, w') = H.parse_subclass_arg arg w in
      let (known, remote) = parse_arg r.d_cas_remote [] arg in
      let r' : Runner = record r { d_cas_remote = remote } in
      if-KeepsSilent taken (parsed_options r w') _ h (
        if-KeepsSilent known (parsed_options r' w') _ h
          (own-KeepsSilent r' w' (strip (codes "--") arg) h))

  verbose-same :
      (r : Runner) (w : H.World)
      → IsSilent r.logger
      → (H.parse_subclass_arg (codes "--verbose") w) ≡ (false, w)
      → parse_option H r w (codes "--verbose") ≡ parsed_options r w
  unfolding parse_option set_option set_flag text_eq parse_arg strip parse_rest cut_assign
      set_log_level
  verbose-same r w h n = rw n (rw h)

  -- A round whose runner is still silent.
  round-verbose :
      (rest : List Text) (x : ParsedOptions H.World)
      → KeepsSilent x
      → ((r : Runner) (w : H.World)
          → IsSilent r.logger
          → parse_arguments H rest r w ≡ parse_arguments H (without_verbose rest) r w)
      → then_option H (parse_arguments H rest) x
        ≡ then_option H (parse_arguments H (without_verbose rest)) x
  round-verbose rest (parsed_options r w) h ih = ih r w h
  round-verbose rest (refused w) h ih = refl
  round-verbose rest (exited w) h ih = refl
  round-verbose rest (thrown w) h ih = refl

  -- Where neither of the two flags of glog that send the log to the standard error is set, and for a
  -- subclass that leaves `--verbose` alone, the arguments parse to the same result with and without each
  -- `--verbose`.
  pub parse_arguments-without_verbose :
      (args : List Text) (r : Runner) (w : H.World)
      → IsSilent r.logger
      → ((v : H.World) → H.parse_subclass_arg (codes "--verbose") v ≡ (false, v))
      → parse_arguments H args r w ≡ parse_arguments H (without_verbose args) r w
  unfolding parse_arguments
  parse_arguments-without_verbose [] r w h n = refl
  parse_arguments-without_verbose (arg ∷ rest) r w h n =
      elim (Bool-cases (text_eq arg (codes "--verbose"))) [
        | inl same ↦
            rw (same, text_eq→eq arg (codes "--verbose") same, verbose-same r w h (n w))
              (parse_arguments-without_verbose rest r w h n)
        | inr other ↦ rw other (
            round-verbose rest (parse_option H r w arg) (option-KeepsSilent r w arg h)
              (λ r' w' h'. parse_arguments-without_verbose rest r' w' h' n))
      ]
