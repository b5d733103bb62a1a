-- ===== src/Runner/Options/Last.antt =====
-- Which of several values of an option the runner takes.
use buildbox_common.Prelude.{
  ◌≡◌, refl, sym, subst, ◌∙◌, inl, inr, Bool, true, false, List, [], ◌∷◌, ◌++◌, Option, none, some,
  if◌then◌else◌, arith, Text, text_eq, text_eq→eq, codes, Bool-cases, Option-cases,
}
use buildbox_common.Connection.{ConnectionOptions, strip, cut_assign, set_key}
use buildbox_common.Runner.{Runner, Host}
use buildbox_common.Runner.Options.{
  ParsedOptions, parsed_options, refused, exited, thrown, set_option, set_flag, own_named,
  own_option, parse_option, then_option, check_url, parse_arguments,
}
use buildbox_common.Runner.Options.Stored.{
  Stored, key_of, field_of, input_path, output_path, stage_path, stdout_path, stderr_path, or_old,
  given_or, last_given, matching, strip-matching, Plain-key, and_strip, strip-append, remote_named,
  remote_option, parse_rest-named, set_key-own, field-remote, parse_arg-remote,
}

module _ (H : Host) where
  -- If the parsing goes on, the option is `v`.
  abbrev Holds : Stored → Text → ParsedOptions H.World → Type 0
  Holds f v (parsed_options r w) = field_of f r ≡ v
  Holds f v (refused w) = Unit
  Holds f v (exited w) = Unit
  Holds f v (thrown w) = Unit

  set_option-same :
      (f : Stored) (r : Runner) (w : H.World) (v : Text) → Holds f v (set_option H r w (key_of f) v)
  unfolding set_option text_eq
  set_option-same input_path r w v = refl
  set_option-same output_path r w v = refl
  set_option-same stage_path r w v = refl
  set_option-same stdout_path r w v = refl
  set_option-same stderr_path r w v = refl

  set_option-other :
      (f : Stored) (r : Runner) (w : H.World) (key v : Text)
      → text_eq key (key_of f) ≡ false
      → Holds f (field_of f r) (set_option H r w key v)
  unfolding set_option
  set_option-other input_path r w key v h = ground arith
  set_option-other output_path r w key v h = ground arith
  set_option-other stage_path r w key v h = ground arith
  set_option-other stdout_path r w key v h = ground arith
  set_option-other stderr_path r w key v h = ground arith

  set_flag-Holds :
      (f : Stored) (r : Runner) (w : H.World) (arg : Text)
      → Holds f (field_of f r) (set_flag H r w arg)
  unfolding set_flag
  set_flag-Holds f r w arg = ground arith

  -- What a round of the loop does after `parseArg` of `ConnectionOptions`.
  abbrev after_remote :
      Runner
      → H.World
      → (Runner → ParsedOptions H.World)
      → Bool × ConnectionOptions
      → ParsedOptions H.World
  after_remote r w own (known, o) =
      let r' : Runner = record r { d_cas_remote = o } in
      if known then parsed_options r' w else own r'

  after_remote-Holds :
      (f : Stored) (v : Text) (r : Runner) (w : H.World) (own : Runner → ParsedOptions H.World)
      (x : Bool × ConnectionOptions)
      → field_of f r ≡ v
      → ((o : ConnectionOptions) → Holds f v (own (record r { d_cas_remote = o })))
      → Holds f v (after_remote r w own x)
  after_remote-Holds f v r w own (true, o) e k = field-remote f r o ∙ e
  after_remote-Holds f v r w own (false, o) e k = k o

  named-Holds :
      (f : Stored) (r : Runner) (w : H.World) (arg : Text) (x : Text × Option Text)
      → Holds f
          (or_old (field_of f r) (matching (key_of f) x))
          (after_remote r w (λ r'. own_named H r' w arg x) (remote_named r.d_cas_remote arg x))
  named-Holds f r w arg (key, none) =
      after_remote-Holds f (field_of f r) r w (λ r'. set_flag H r' w arg)
        (remote_named r.d_cas_remote arg (key, none)) refl
        (λ o.
          subst (λ v. Holds f v (set_flag H (record r { d_cas_remote = o }) w arg))
            (field-remote f r o) (set_flag-Holds f (record r { d_cas_remote = o }) w arg))
  named-Holds f r w arg (key, some v) = elim (Bool-cases (text_eq key (key_of f))) [
    | inr other ↦ rw other (
        after_remote-Holds f (field_of f r) r w (λ r'. set_option H r' w key v)
          (set_key r.d_cas_remote key v) refl
          (λ o.
            subst (λ u. Holds f u (set_option H (record r { d_cas_remote = o }) w key v))
              (field-remote f r o)
              (set_option-other f (record r { d_cas_remote = o }) w key v other)))
    | inl same ↦
        let e = text_eq→eq key (key_of f) same in
        rw same (
          subst
            (λ k.
              Holds f v
                (after_remote r w (λ r'. set_option H r' w k v) (set_key r.d_cas_remote k v)))
            (sym e)
            (rw (set_key-own f r.d_cas_remote v)
              (set_option-same f (record r { d_cas_remote = r.d_cas_remote }) w v)))
  ]

  option-Holds :
      (f : Stored) (r : Runner) (w : H.World) (t : Option Text)
      → Holds f
          (or_old (field_of f r) (and_strip (key_of f ++ codes "=") t))
          (after_remote r w (λ r'. own_option H r' w t) (remote_option r.d_cas_remote t))
  option-Holds f r w none = tt
  option-Holds f r w (some arg) =
      rw (strip-matching (key_of f) arg (Plain-key f), parse_rest-named r.d_cas_remote arg)
        (named-Holds f r w arg (cut_assign arg))

  round-Holds :
      (f : Stored) (r : Runner) (w : H.World) (arg : Text)
      → (H.parse_subclass_arg arg w).0 ≡ false
      → Holds f (given_or f (field_of f r) arg) (parse_option H r w arg)
  unfolding parse_option
  round-Holds f r w arg h =
      rw
        (
          h,
          strip-append (codes "--") (key_of f ++ codes "=") arg,
          parse_arg-remote r.d_cas_remote arg,
        )
        (option-Holds f r (H.parse_subclass_arg arg w).1 (strip (codes "--") arg))

  then_option-Holds :
      (f : Stored) (v : Text) (rest : List Text) (x : ParsedOptions H.World)
      → Holds f v x
      → ((r : Runner) (w : H.World)
          → Holds f (last_given f (field_of f r) rest) (parse_arguments H rest r w))
      → Holds f (last_given f v rest) (then_option H (parse_arguments H rest) x)
  then_option-Holds f v rest (parsed_options r w) h ih =
      subst (λ u. Holds f (last_given f u rest) (parse_arguments H rest r w)) h (ih r w)
  then_option-Holds f v rest (refused w) h ih = tt
  then_option-Holds f v rest (exited w) h ih = tt
  then_option-Holds f v rest (thrown w) h ih = tt

  check_url-Holds :
      (f : Stored) (r : Runner) (w : H.World) → Holds f (field_of f r) (check_url H r w)
  check_url-Holds f r w = elim (Option-cases r.d_cas_remote.url) [
    | inl e ↦ rw e tt
    | inr (url, e) ↦ rw e refl
  ]

  loop-Holds :
      (f : Stored) (args : List Text) (r : Runner) (w : H.World)
      → ((arg : Text) (v : H.World) → (H.parse_subclass_arg arg v).0 ≡ false)
      → Holds f (last_given f (field_of f r) args) (parse_arguments H args r w)
  unfolding parse_arguments
  loop-Holds f [] r w n = check_url-Holds f r w
  loop-Holds f (arg ∷ rest) r w n =
      then_option-Holds f (given_or f (field_of f r) arg) rest (parse_option H r w arg)
        (round-Holds f r w arg (n arg w)) (λ r' w'. loop-Holds f rest r' w' n)

  -- For a subclass that takes no argument: after a parse that succeeds, each of the options `action`,
  -- `action-result`, `workspace-path`, `stdout-file` and `stderr-file` has the value of its last
  -- assignment `--KEY=VALUE` among the arguments, or its old value if it has none.
  pub parse_arguments-last_given :
      (f : Stored) (args : List Text) (r r' : Runner) (w w' : H.World)
      → ((arg : Text) (v : H.World) → (H.parse_subclass_arg arg v).0 ≡ false)
      → parse_arguments H args r w ≡ parsed_options r' w'
      → field_of f r' ≡ last_given f (field_of f r) args
  parse_arguments-last_given f args r r' w w' n e =
      subst (Holds f (last_given f (field_of f r) args)) e (loop-Holds f args r w n)
