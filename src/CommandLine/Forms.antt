-- ===== src/CommandLine/Forms.antt =====
-- The two formats of an option with an argument.
use buildbox_common.Prelude.{
  ◌≡◌, refl, ap, ◌∙◌, sym, inl, inr, Bool, true, false, ◌||◌, List, [], ◌∷◌, ◌++◌, Option, none,
  some, arith, Text, text_eq, text_eq→eq, Bool-cases, codes, ◌==◌,
}
use buildbox_common.Connection.{cut_assign}
use buildbox_common.CommandLine.Types.{Doubles, ArgumentSpec, CommandLine, has_argument}
use buildbox_common.CommandLine.Values.{Built, built, refused, throws, build_argument_value}
use buildbox_common.CommandLine.Options.{
  find_option_spec, after_one, after_two, store_value, read_value, is_option, read_found,
  read_option, round_of, form_of, parse_round, Outcome, parse_options, after_round,
}

-- Whether a text has an equals sign.
unfoldable pub has_assign : Text → Bool
has_assign [] = false
has_assign (c ∷ rest) = c == b'=' || has_assign rest

pub cut_assign-append :
    (name value : Text)
    → has_assign name ≡ false
    → cut_assign (name ++ b'=' ∷ value) ≡ (name, some value)
unfolding cut_assign has_assign
cut_assign-append [] value h = refl
cut_assign-append (c ∷ name) value h = ground (arith, cut_assign-append name value)

pub cut_assign_self : (name : Text) → has_assign name ≡ false → cut_assign name ≡ (name, none)
unfolding cut_assign has_assign
cut_assign_self [] h = refl
cut_assign_self (c ∷ name) h = ground (arith, cut_assign_self name)

-- `--name`
abbrev pub long_name : Text → Text
long_name name = codes "--" ++ name

-- `--name=value`
abbrev pub long_option : Text → Text → Text
long_option name value = codes "--" ++ (name ++ b'=' ∷ value)

module _ (D : Doubles) where
  pub find_option_spec-name :
      (specs : List (ArgumentSpec D)) (name : Text) (s : ArgumentSpec D)
      → find_option_spec D specs name ≡ some s
      → s.name ≡ name
  unfolding find_option_spec
  find_option_spec-name [] name s h = absurd (ground arith)
  find_option_spec-name (x ∷ rest) name s h = elim (Bool-cases (text_eq x.name name)) [
    | inl e ↦
        let same : x ≡ s = ground arith in
        ap (λ (y : ArgumentSpec D). y.name) (sym same) ∙ text_eq→eq x.name name e
    | inr e ↦ find_option_spec-name rest name s (ground arith)
  ]

  -- A round with an option that has its argument behind an equals sign.
  pub round-long_option :
      (name value : Text) (next : Option Text) (s : ArgumentSpec D) (cl : CommandLine D)
      → has_assign name ≡ false
      → find_option_spec D cl.spec name ≡ some s
      → parse_round D (long_option name value) next cl
        ≡ store_value D after_one name s (build_argument_value D value s cl)
  unfolding parse_round form_of round_of read_option read_found read_value
  round-long_option name value next s cl h e = rw (cut_assign-append name value h, e)

  -- A round with an option that has its argument as the next one.
  round-long_name :
      (name value : Text) (s : ArgumentSpec D) (cl : CommandLine D)
      → has_assign name ≡ false
      → find_option_spec D cl.spec name ≡ some s
      → has_argument D s ≡ true
      → is_option D value ≡ false
      → parse_round D (long_name name) (some value) cl
        ≡ store_value D after_two name s (build_argument_value D value s cl)
  unfolding parse_round form_of round_of read_option read_found read_value
  round-long_name name value s cl h e a o = rw (cut_assign_self name h, e, a, o)

  store-after_round :
      (name : Text) (s : ArgumentSpec D) (b : Built D) (args args' : List Text) (cl : CommandLine D)
      (one next two : CommandLine D → Outcome D)
      → after_round D args cl one next (store_value D after_two name s b)
        ≡ after_round D args' cl next two (store_value D after_one name s b)
  unfolding after_round store_value
  store-after_round name s (built value cl') args args' cl one next two = refl
  store-after_round name s refused args args' cl one next two = refl
  store-after_round name s throws args args' cl one next two = refl

  -- The loop goes on behind a round that takes one argument.
  pub parse_options-after_one :
      (arg : Text) (rest : List Text) (cl cl' : CommandLine D)
      → ((next : Option Text) → parse_round D arg next cl ≡ after_one cl')
      → parse_options D (arg ∷ rest) cl ≡ parse_options D rest cl'
  unfolding parse_options after_round
  parse_options-after_one arg [] cl cl' h = rw (h none)
  parse_options-after_one arg (next ∷ rest) cl cl' h = rw (h (some next))

  -- `--name value` is read as `--name=value` is, whatever the type of the option, for a name without
  -- an equals sign and a value that does not begin with two dashes, where the option has an argument.
  pub parse_options-forms :
      (name value : Text) (rest : List Text) (s : ArgumentSpec D) (cl : CommandLine D)
      → has_assign name ≡ false
      → find_option_spec D cl.spec name ≡ some s
      → has_argument D s ≡ true
      → is_option D value ≡ false
      → parse_options D (long_name name ∷ value ∷ rest) cl
        ≡ parse_options D (long_option name value ∷ rest) cl
  unfolding parse_options
  parse_options-forms name value [] s cl h e a o =
      rw (round-long_name name value s cl h e a o, round-long_option name value none s cl h e)
        (store-after_round name s _ _ _ cl _ _ _)
  parse_options-forms name value (next ∷ rest) s cl h e a o =
      rw
        (round-long_name name value s cl h e a o, round-long_option name value (some next) s cl h e)
        (store-after_round name s _ _ _ cl _ _ _)
