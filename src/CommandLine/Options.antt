-- ===== src/CommandLine/Options.antt =====
-- `parseOptions` and the functions on the specification that it uses. A byte past the end of a text
-- is 0, and reading past that is undefined: that is what an empty argument leads to.
use buildbox_common.Prelude.{
  Bool, true, false, not, ◌&&◌, ◌||◌, List, [], ◌∷◌, Option, none, some, ◌==◌, if◌then◌else◌, Text,
  text_eq, codes, starts_with,
}
use buildbox_common.Connection.{cut_assign}
use buildbox_common.CommandLine.Types.{
  Doubles, ArgumentSpec, is_required, has_argument, CommandLine,
}
use buildbox_common.CommandLine.Values.{Built, built, refused, throws, build_argument_value}
use buildbox_common.Prelude.Maps.{map_find, map_emplace}

-- The forms of an argument: a text of no bytes, `-x`, one that starts with two bytes of which either
-- none or the second alone is a dash or both are, and one of a single byte.
pub data Form : Type 0 where
  undefined_form : Form
  short_form : Form
  positional_form : Form
  long_form : Text → Form

-- The two tests on the first bytes. `substr(2)` is what stands behind them.
unfoldable pub form_of : Text → Form
form_of [] = undefined_form
form_of (c ∷ []) = if c == b'-' then short_form else positional_form
form_of (c ∷ d ∷ rest) =
    if c == b'-'
    then if d == b'-' then long_form rest else short_form
    else if d == b'-'
    then long_form rest
    else positional_form

module _ (D : Doubles) where
  -- `existsInSpec`
  unfoldable pub exists_in_spec : List (ArgumentSpec D) → Text → Bool
  exists_in_spec [] name = false
  exists_in_spec (s ∷ rest) name = text_eq s.name name || exists_in_spec rest name

  -- `findOptionSpecByName`
  unfoldable pub find_option_spec : List (ArgumentSpec D) → Text → Option (ArgumentSpec D)
  find_option_spec [] name = none
  find_option_spec (s ∷ rest) name =
      let found = find_option_spec rest name in if text_eq s.name name then some s else found

  abbrev pub is_some : {A : Type 0} → Option A → Bool
  is_some none = false
  is_some (some a) = true

  -- `exists`
  abbrev pub exists_arg : CommandLine D → Text → Bool
  exists_arg cl name = is_some (map_find cl.parsed_args name)

  -- One round of `validateRequiredArgs`.
  abbrev pub is_met : CommandLine D → ArgumentSpec D → Bool
  is_met cl s = text_eq s.name [] || (not (is_required D s) || exists_arg cl s.name)

  -- `validateRequiredArgs`, which counts the arguments that are missing.
  unfoldable pub validate_required_args : CommandLine D → List (ArgumentSpec D) → Bool
  unfolding map_find text_eq
  validate_required_args cl [] = true
  validate_required_args cl (s ∷ rest) = is_met cl s && validate_required_args cl rest

  -- `readyForPositionals`
  unfoldable pub ready_for_positionals : CommandLine D → Text → Bool
  unfolding exists_in_spec validate_required_args
  ready_for_positionals cl arg =
      not (exists_in_spec cl.spec arg) && validate_required_args cl cl.spec

  -- What a round of the loop ends with: `false`, an exception, a read out of bounds, the end of the
  -- loop at a positional argument, or the next round after one argument or two.
  pub data Round : Type 0 where
    failed : Round
    threw : Round
    undefined : Round
    stopped : Round
    after_one : CommandLine D → Round
    after_two : CommandLine D → Round

  -- The end of a round: the value goes into the container.
  unfoldable pub store_value : (CommandLine D → Round) → Text → ArgumentSpec D → Built D → Round
  unfolding map_emplace
  store_value next name spec (built value cl) = next (record cl {
    parsed_args =
        map_emplace cl.parsed_args name (record { argument_value = value; argument_spec = spec });
  })
  store_value next name spec refused = failed
  store_value next name spec throws = threw

  -- `optionValue[0] == '-' && optionValue[1] == '-'`
  abbrev pub is_option : Text → Bool
  is_option value = starts_with (codes "--") value

  -- The value of an option is what follows its equals sign, or the next argument.
  unfoldable pub read_value :
      Text → ArgumentSpec D → Option Text → Option Text → CommandLine D → Round
  unfolding build_argument_value
  read_value name spec (some value) next cl =
      store_value after_one name spec (build_argument_value D value spec cl)
  read_value name spec none none cl =
      if has_argument D spec
      then failed
      else store_value after_one name spec (build_argument_value D [] spec cl)
  read_value name spec none (some next) cl =
      if has_argument D spec
      then if is_option next
        then failed
        else store_value after_two name spec (build_argument_value D next spec cl)
      else store_value after_one name spec (build_argument_value D [] spec cl)

  -- The specification of the option must be found.
  unfoldable pub read_found :
      Text → Option (ArgumentSpec D) → Option Text → Option Text → CommandLine D → Round
  unfolding read_value
  read_found name none assigned next cl = failed
  read_found name (some spec) assigned next cl = read_value name spec assigned next cl

  -- A round with the text behind the two bytes.
  unfoldable pub read_option : Text → Option Text → CommandLine D → Round
  unfolding cut_assign find_option_spec read_found
  read_option text next cl =
      let (name, assigned) = cut_assign text in
      read_found name (find_option_spec cl.spec name) assigned next cl

  unfoldable pub round_of : Form → Text → Option Text → CommandLine D → Round
  unfolding ready_for_positionals read_option
  round_of undefined_form arg next cl = undefined
  round_of short_form arg next cl = failed
  round_of positional_form arg next cl = if ready_for_positionals cl arg then stopped else failed
  round_of (long_form text) arg next cl = read_option text next cl

  -- A round of the loop of `parseOptions`; `next` is the argument that follows, if there is one.
  unfoldable pub parse_round : Text → Option Text → CommandLine D → Round
  unfolding form_of ready_for_positionals read_option
  parse_round arg next cl = round_of (form_of arg) arg next cl

  pub data Outcome : Type 0 where
    finished : Bool → CommandLine D → Outcome
    threw_error : Outcome
    undefined_read : Outcome

  -- The step from a round: what the loop leaves, or how it goes on after one argument or two.
  unfoldable pub after_round :
      List Text
      → CommandLine D
      → (CommandLine D → Outcome)
      → (CommandLine D → Outcome)
      → Round
      → Outcome
  after_round args cl one two failed = finished false cl
  after_round args cl one two threw = threw_error
  after_round args cl one two undefined = undefined_read
  after_round args cl one two stopped = finished true (record cl { args = args })
  after_round args cl one two (after_one cl') = one cl'
  after_round args cl one two (after_two cl') = two cl'

  -- The loop of `parseOptions`, over the arguments that are left; those that it leaves are in `args`.
  unfoldable pub parse_options : List Text → CommandLine D → Outcome
  unfolding parse_round after_round
  parse_options [] cl = finished true (record cl { args = [] })
  parse_options (arg ∷ []) cl =
      after_round (arg ∷ []) cl (parse_options []) (parse_options []) (parse_round arg none cl)
  parse_options (arg ∷ next ∷ rest) cl =
      after_round (arg ∷ next ∷ rest) cl (parse_options (next ∷ rest)) (parse_options rest)
        (parse_round arg (some next) cl)
