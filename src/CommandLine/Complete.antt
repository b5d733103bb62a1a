-- ===== src/CommandLine/Complete.antt =====
-- What a `parse` that succeeds has found: the options that are required, and those with a default.
use buildbox_common.Prelude.{
  ◌≡◌, refl, subst, inl, inr, Bool, true, false, ◌&&◌, ◌||◌, not, List, [], ◌∷◌, Option, none, some,
  arith, Text, text_eq, Bool-cases,
}
use buildbox_common.CommandLine.Types.{Doubles, ArgumentSpec, CommandLine, has_value, is_required}
use buildbox_common.CommandLine.Options.{
  Outcome, finished, threw_error, undefined_read, parse_options, exists_arg, validate_required_args,
}
use buildbox_common.CommandLine.Parse.{
  apply_default_values, after_defaults, after_options, parse_positionals, only_help, finish_parse,
  parse,
}
use buildbox_common.CommandLine.Stable.{AfterOutcome, parse_options-AfterOutcome}
use buildbox_common.CommandLine.Grown.{
  Grown, Grown-self, Grown-then, Grown-Kept, Grown-Stable, all_ok, apply_default_values-all_ok,
}
use buildbox_common.CommandLine.Positionals.{Success, Lasting, positionals-Success}

module _ (D : Doubles) where
  Grown-Lasting : (start : CommandLine D) → Lasting D (Grown D start)
  Grown-Lasting start = record {
    build = λ s cl cl' e k g. Grown-then D start cl cl' g (Grown-Kept D s cl cl' k);
    set_specs = λ more cl g. record { spec = g.spec; entries = g.entries };
    set_args = λ args cl g. record { spec = g.spec; entries = g.entries };
  }

  -- What `parse` has made sure of for an option: it is there if it is required or has a default, and
  -- not both.
  pub settled : CommandLine D → ArgumentSpec D → Bool
  settled cl s =
      text_eq s.name []
      || ((not (is_required D s) || exists_arg D cl s.name)
          && (not (has_value D s.default_value)
              || (exists_arg D cl s.name && not (is_required D s))))

  pub all_settled : CommandLine D → List (ArgumentSpec D) → Bool
  all_settled cl [] = true
  all_settled cl (s ∷ rest) = settled cl s && all_settled cl rest

  settled-Grown :
      (specs : List (ArgumentSpec D)) (cl cl' : CommandLine D)
      → Grown D cl cl'
      → all_settled cl specs ≡ true
      → all_settled cl' specs ≡ true
  unfolding all_settled settled
  settled-Grown [] cl cl' g h = refl
  settled-Grown (s ∷ rest) cl cl' g h =
      ground (arith, g.entries s.name, settled-Grown rest cl cl' g)

  validate-all_settled :
      (specs : List (ArgumentSpec D)) (cl cl' : CommandLine D)
      → validate_required_args D cl specs ≡ true
      → Grown D cl cl'
      → all_ok D cl' specs ≡ true
      → all_settled cl' specs ≡ true
  unfolding validate_required_args all_ok all_settled settled
  validate-all_settled [] cl cl' h g o = refl
  validate-all_settled (s ∷ rest) cl cl' h g o =
      ground (arith, g.entries s.name, validate-all_settled rest cl cl')

  -- What the theorem states of an object, for a specification.
  abbrev Complete : List (ArgumentSpec D) → CommandLine D → Type 0
  Complete specs cl = (only_help D cl || all_settled cl specs) ≡ true

  defaults-Success :
      (cl : CommandLine D) (defaults : Option (CommandLine D))
      → apply_default_values D cl.spec cl ≡ defaults
      → validate_required_args D cl cl.spec ≡ true
      → Success D (Complete cl.spec) (after_defaults D cl defaults)
  unfolding after_defaults
  defaults-Success cl none e h = tt
  defaults-Success cl (some cl') e h =
      go (parse_positionals D cl')
        (positionals-Success D (Grown D cl') (Grown-Lasting cl') cl' (Grown-self D cl'))
    where
      ok : Grown D cl cl' × (all_ok D cl' cl.spec ≡ true)
      ok = apply_default_values-all_ok D cl.spec cl cl' e

      go : (o : Outcome D) → Success D (Grown D cl') o → Success D (Complete cl.spec) o
      go (finished true cl2) g =
          ground (
            arith,
            settled-Grown cl.spec cl' cl2 g (validate-all_settled cl.spec cl cl' h ok.0 ok.1),
          )
      go (finished false cl2) g = tt
      go threw_error g = tt
      go undefined_read g = tt

  finish-Success : (cl : CommandLine D) → Success D (Complete cl.spec) (finish_parse D cl)
  unfolding finish_parse
  finish-Success cl = elim (Bool-cases (only_help D cl)) [
    | inl e ↦ rw e (ground arith)
    | inr e ↦ elim (Bool-cases (validate_required_args D cl cl.spec)) [
      | inl v ↦ rw (e, v) (defaults-Success cl (apply_default_values D cl.spec cl) refl v)
      | inr v ↦ rw (e, v) tt
    ]
  ]

  options-Success :
      (start : CommandLine D) (o : Outcome D)
      → AfterOutcome D (Grown D start) o
      → Success D (Complete start.spec) (after_options D o)
  unfolding after_options
  options-Success start (finished true cl) g =
      subst (λ specs. Success D (Complete specs) (finish_parse D cl)) (g.spec) (finish-Success cl)
  options-Success start (finished false cl) g = tt
  options-Success start threw_error g = tt
  options-Success start undefined_read g = tt

  -- If `parse` returns true, then either there is one argument, `help`, or each option of the
  -- specification that is required exists, each with a default exists, and none has both.
  pub parse-all_settled :
      (args : List Text) (cl cl' : CommandLine D)
      → parse D args cl ≡ finished true cl'
      → (only_help D cl' || all_settled cl' cl.spec) ≡ true
  unfolding parse
  parse-all_settled [] cl cl' h = subst (Success D (Complete cl.spec)) h tt
  parse-all_settled (process ∷ args) cl cl' h =
      let start = record cl { process_name = process } in
      let g =
        parse_options-AfterOutcome D (Grown D start) (Grown-Stable D start) args start
          (Grown-self D start) in
      subst (Success D (Complete cl.spec)) h (options-Success start (parse_options D args start) g)
