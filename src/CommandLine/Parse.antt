-- ===== src/CommandLine/Parse.antt =====
-- `parse`: the options, the check for required ones, the defaults and the positional arguments. The
-- object is one on which `parse` is called for the first time.
use buildbox_common.Prelude.{
  ℕ, suc, Bool, true, false, ◌&&◌, List, [], ◌∷◌, Option, none, some, ltb, ◌==◌, if◌then◌else◌,
  Text, text_eq, codes, length,
}
use buildbox_common.CommandLine.Types.{
  Doubles, DataType, string_type, int_type, double_type, bool_type, string_array, string_pair_array,
  unknown_type, DefaultValue, no_default, default_string, default_int, default_double, default_bool,
  default_type, has_value, ArgumentSpec, is_required, ArgumentValue, empty_value, CommandLine,
}
use buildbox_common.CommandLine.Values.{Built, built, refused, throws, build_argument_value}
use buildbox_common.Prelude.Maps.{map_find, map_emplace}
use buildbox_common.CommandLine.Options.{
  exists_arg, validate_required_args, parse_options, Outcome, finished, threw_error, undefined_read,
}

-- The comparison of two members of an `enum`.
abbrev pub type_code : DataType → ℕ
type_code string_type = 0
type_code int_type = 1
type_code double_type = 2
type_code bool_type = 3
type_code string_array = 4
type_code string_pair_array = 5
type_code unknown_type = 6

module _ (D : Doubles) where
  -- The value that a default gives.
  abbrev pub value_of_default : DefaultValue D → ArgumentValue D
  value_of_default no_default = empty_value D
  value_of_default (default_string v) = record (empty_value D) { str_value = v }
  value_of_default (default_int v) = record (empty_value D) { int_value = v }
  value_of_default (default_double v) = record (empty_value D) { double_value = v }
  value_of_default (default_bool v) = record (empty_value D) { bool_value = some v }

  -- The default goes into the container, if the types agree.
  unfoldable pub put_default : CommandLine D → ArgumentSpec D → Option (CommandLine D)
  unfolding map_emplace
  put_default cl s =
      if type_code s.type_info.data_type == type_code (default_type D s.default_value)
      then some (record cl {
        parsed_args =
            map_emplace cl.parsed_args s.name
              (record { argument_value = value_of_default s.default_value; argument_spec = s });
      })
      else none

  -- One round of `applyDefaultValues`; `none` is `false`.
  unfoldable pub apply_default : CommandLine D → ArgumentSpec D → Option (CommandLine D)
  unfolding map_emplace map_find text_eq
  apply_default cl s =
      if text_eq s.name []
      then some cl
      else if is_required D s && has_value D s.default_value
      then none
      else if exists_arg D cl s.name
      then some cl
      else if has_value D s.default_value
      then put_default cl s
      else some cl

  -- The loop of `applyDefaultValues`, over the part of the specification that is left.
  unfoldable pub apply_default_values :
      List (ArgumentSpec D) → CommandLine D → Option (CommandLine D)
  unfolding map_emplace map_find text_eq
  apply_default_values [] cl = some cl
  apply_default_values (s ∷ rest) cl = elim (apply_default cl s) [
    | none ↦ none
    | some cl' ↦ apply_default_values rest cl'
  ]

  -- `isRequiredPositional`
  unfoldable pub is_required_positional : ArgumentSpec D → Bool
  unfolding text_eq
  is_required_positional s = text_eq s.name [] && is_required D s

  -- `std::count_if` with it.
  unfoldable pub count_required : List (ArgumentSpec D) → ℕ
  unfolding text_eq
  count_required [] = 0
  count_required (s ∷ rest) =
      let more = count_required rest in if is_required_positional s then suc more else more

  -- `findNextPositionalSpec`, with what is left of the specification behind the one that it finds.
  unfoldable pub find_next_positional :
      List (ArgumentSpec D) → Option (ArgumentSpec D × List (ArgumentSpec D))
  unfolding text_eq
  find_next_positional [] = none
  find_next_positional (s ∷ rest) =
      let found = find_next_positional rest in if text_eq s.name [] then some (s, rest) else found

  -- The end of a round: the value itself is not kept.
  unfoldable pub after_built : (CommandLine D → Outcome D) → CommandLine D → Built D → Outcome D
  after_built next cl (built value cl') = next cl'
  after_built next cl refused = finished false cl
  after_built next cl throws = threw_error

  -- A round of the loop of `parsePositionals`. An argument for which no specification is left is
  -- passed over.
  unfoldable pub bind_positional :
      (CommandLine D → Outcome D)
      → Text
      → CommandLine D
      → Option (ArgumentSpec D × List (ArgumentSpec D))
      → Outcome D
  unfolding build_argument_value after_built
  bind_positional next arg cl none = next (record cl { positional_specs = [] })
  bind_positional next arg cl (some (s, more)) =
      let at = record cl { positional_specs = more } in
      after_built next at (build_argument_value D arg s at)

  -- The loop of `parsePositionals`.
  unfoldable pub positional_loop : List Text → CommandLine D → Outcome D
  unfolding find_next_positional bind_positional
  positional_loop [] cl = finished true (record cl { args = [] })
  positional_loop (arg ∷ rest) cl =
      bind_positional (positional_loop rest) arg cl (find_next_positional cl.positional_specs)

  -- `parsePositionals`
  unfoldable pub parse_positionals : CommandLine D → Outcome D
  unfolding count_required positional_loop
  parse_positionals cl =
      if ltb (length cl.args) (count_required cl.spec)
      then finished false cl
      else positional_loop cl.args cl

  -- `d_parsedArgs.size() == 1 && d_parsedArgs.count("help") > 0`
  unfoldable pub only_help : CommandLine D → Bool
  unfolding map_find text_eq
  only_help cl = length cl.parsed_args == 1 && exists_arg D cl (codes "help")

  -- What follows the defaults.
  unfoldable pub after_defaults : CommandLine D → Option (CommandLine D) → Outcome D
  unfolding parse_positionals
  after_defaults cl none = finished false cl
  after_defaults cl (some cl') = parse_positionals cl'

  -- What `parse` does with the options read.
  unfoldable pub finish_parse : CommandLine D → Outcome D
  unfolding only_help validate_required_args apply_default_values after_defaults
  finish_parse cl =
      if only_help cl
      then finished true cl
      else if validate_required_args D cl cl.spec
      then after_defaults cl (apply_default_values cl.spec cl)
      else finished false cl

  unfoldable pub after_options : Outcome D → Outcome D
  unfolding finish_parse
  after_options (finished true cl) = finish_parse cl
  after_options (finished false cl) = finished false cl
  after_options threw_error = threw_error
  after_options undefined_read = undefined_read

  -- `parse`; the first argument is the name of the process.
  unfoldable pub parse : List Text → CommandLine D → Outcome D
  unfolding parse_options after_options
  parse [] cl = finished false cl
  parse (process ∷ args) cl =
      after_options (parse_options D args (record cl { process_name = process }))
