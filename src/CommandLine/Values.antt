-- ===== src/CommandLine/Values.antt =====
-- `buildArgumentValue`: the conversion of one argument, and where its value goes.
use buildbox_common.Prelude.{
  Bool, true, false, [], ◌∷◌, ◌++◌, Option, none, some, Text, text_eq, codes,
}
use buildbox_common.Prelude.Int.{ℤ}
use buildbox_common.Prelude.Maps.{map_find, map_update}
use buildbox_common.Numbers.{
  Parsed, parsed, runtime_error, invalid_argument, out_of_range, range_error, stoi,
}
use buildbox_common.Connection.{cut_assign}
use buildbox_common.CommandLine.Types.{
  Doubles, DataType, string_type, int_type, double_type, bool_type, string_array, string_pair_array,
  unknown_type, with_arg, without_arg, ArgumentSpec, ArgumentValue, empty_value, Bound, bind_string,
  bind_int, bind_double, bind_bool, bind_element, bind_pair, ArgumentMetaData, CommandLine,
}

-- `split`, where it does not find the delimiter, leaves both texts empty; its result is not used.
unfoldable pub split_pair : Text → Text × Text
unfolding cut_assign
split_pair text =
    let (key, assigned) = cut_assign text in
    elim assigned [ none ↦ ([], []) | some value ↦ (key, value) ]

module _ (D : Doubles) where
  -- What `buildArgumentValue` ends with: a value, `false`, or an exception that it does not catch.
  pub data Built : Type 0 where
    built : ArgumentValue D → CommandLine D → Built
    refused : Built
    throws : Built

  -- The write through the pointer of the specification, if it is not null.
  unfoldable pub bind : ArgumentSpec D → Bound D → CommandLine D → CommandLine D
  bind spec bound cl = elim (spec.type_info.variable) [
    | none ↦ cl
    | some v ↦ record cl { writes = cl.writes ++ ((v, bound) ∷ []) }
  ]

  unfoldable pub build_int : ArgumentSpec D → CommandLine D → Parsed ℤ → Built
  unfolding bind
  build_int spec cl (parsed v) =
      built (record (empty_value D) { int_value = v }) (bind spec (bind_int v) cl)
  build_int spec cl runtime_error = throws
  build_int spec cl invalid_argument = refused
  build_int spec cl out_of_range = refused
  build_int spec cl range_error = throws

  unfoldable pub build_double : ArgumentSpec D → CommandLine D → Parsed D.Double → Built
  unfolding bind
  build_double spec cl (parsed v) =
      built (record (empty_value D) { double_value = v }) (bind spec (bind_double v) cl)
  build_double spec cl runtime_error = throws
  build_double spec cl invalid_argument = refused
  build_double spec cl out_of_range = refused
  build_double spec cl range_error = throws

  -- An option without an argument is true; else the text says so.
  abbrev pub bool_of : ArgumentSpec D → Text → Bool
  bool_of spec [] = elim (spec.constraint) [ with_arg ↦ false | without_arg ↦ true ]
  bool_of spec (c ∷ cs) = text_eq (c ∷ cs) (codes "true")

  abbrev pub add_element : Text → ArgumentMetaData D → ArgumentMetaData D
  add_element v m = record m {
    argument_value = record (m.argument_value) { vs_value = m.argument_value.vs_value ++ (v ∷ []) };
  }

  abbrev pub add_pair : Text × Text → ArgumentMetaData D → ArgumentMetaData D
  add_pair v m = record m {
    argument_value = record (m.argument_value) {
      vps_value = m.argument_value.vps_value ++ (v ∷ []);
    };
  }

  -- The element goes into a new value, or into the entry that is there.
  unfoldable pub build_element :
      ArgumentSpec D → CommandLine D → Text → Option (ArgumentMetaData D) → Built
  unfolding bind map_update
  build_element spec cl v none =
      built (record (empty_value D) { vs_value = v ∷ [] }) (bind spec (bind_element v) cl)
  build_element spec cl v (some m) = built (empty_value D) (
      bind spec (bind_element v)
        (record cl { parsed_args = map_update cl.parsed_args spec.name (add_element v) }))

  unfoldable pub build_pair :
      ArgumentSpec D → CommandLine D → Text × Text → Option (ArgumentMetaData D) → Built
  unfolding bind map_update
  build_pair spec cl v none =
      built (record (empty_value D) { vps_value = v ∷ [] }) (bind spec (bind_pair v) cl)
  build_pair spec cl v (some m) = built (empty_value D) (
      bind spec (bind_pair v)
        (record cl { parsed_args = map_update cl.parsed_args spec.name (add_pair v) }))

  -- `buildArgumentValue`, by the data type of the specification.
  unfoldable pub build_typed : DataType → Text → ArgumentSpec D → CommandLine D → Built
  unfolding bind map_find map_update split_pair stoi text_eq
  build_typed string_type text spec cl =
      built (record (empty_value D) { str_value = text }) (bind spec (bind_string text) cl)
  build_typed int_type text spec cl = build_int spec cl (stoi text)
  build_typed double_type text spec cl = build_double spec cl (D.stod text)
  build_typed bool_type text spec cl =
      let v = bool_of spec text in
      built (record (empty_value D) { bool_value = some v }) (bind spec (bind_bool v) cl)
  build_typed string_array text spec cl =
      build_element spec cl text (map_find cl.parsed_args spec.name)
  build_typed string_pair_array text spec cl =
      build_pair spec cl (split_pair text) (map_find cl.parsed_args spec.name)
  build_typed unknown_type text spec cl = throws

  unfoldable pub build_argument_value : Text → ArgumentSpec D → CommandLine D → Built
  unfolding build_typed
  build_argument_value text spec cl = build_typed spec.type_info.data_type text spec cl
