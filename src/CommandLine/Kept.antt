-- ===== src/CommandLine/Kept.antt =====
-- What the conversion of an argument keeps: the specification, and the entries that are there.
use buildbox_common.Prelude.{
  ◌≡◌, refl, inl, inr, ◌⊎◌, Bool, true, false, Option, none, some, Text, Option-cases,
}
use buildbox_common.Prelude.Int.{ℤ}
use buildbox_common.Numbers.{
  Parsed, parsed, runtime_error, invalid_argument, out_of_range, range_error, stoi,
}
use buildbox_common.CommandLine.Types.{
  Doubles, DataType, string_type, int_type, double_type, bool_type, string_array, string_pair_array,
  unknown_type, ArgumentSpec, ArgumentMetaData, CommandLine, Bound,
}
use buildbox_common.CommandLine.Values.{
  Built, built, refused, throws, bind, build_int, build_double, split_pair, build_element,
  build_pair, build_typed, build_argument_value, add_element, add_pair,
}
use buildbox_common.Prelude.Maps.{map_find, map_update}

abbrev pub is_array : DataType → Bool
is_array string_type = false
is_array int_type = false
is_array double_type = false
is_array bool_type = false
is_array string_array = true
is_array string_pair_array = true
is_array unknown_type = false

module _ (D : Doubles) where
  -- The conversion for a specification keeps the specifications, and of the container all but the
  -- entry of an array, which it may change.
  pub record Kept (s : ArgumentSpec D) (cl cl' : CommandLine D) : Type 0 where
    pub spec : cl'.spec ≡ cl.spec
    pub args : cl'.args ≡ cl.args
    pub entries :
        (cl'.parsed_args ≡ cl.parsed_args)
        ⊎ ((f : ArgumentMetaData D → ArgumentMetaData D) × (is_array s.type_info.data_type ≡ true)
            × (cl'.parsed_args ≡ map_update cl.parsed_args s.name f))

  abbrev pub AfterBuilt : (CommandLine D → Type 0) → Built D → Type 0
  AfterBuilt P (built value cl) = P cl
  AfterBuilt P refused = Unit
  AfterBuilt P throws = Unit

  bind-Kept :
      (s r : ArgumentSpec D) (bound : Bound D) (cl : CommandLine D) → Kept s cl (bind D r bound cl)
  unfolding bind
  bind-Kept s r bound cl = elim (Option-cases (r.type_info.variable)) [
    | inl e ↦ rw e (record { spec = refl; args = refl; entries = inl refl })
    | inr (v, e) ↦ rw e (record { spec = refl; args = refl; entries = inl refl })
  ]

  update-Kept :
      (s r : ArgumentSpec D) (bound : Bound D) (cl : CommandLine D)
      (f : ArgumentMetaData D → ArgumentMetaData D)
      → is_array s.type_info.data_type ≡ true
      → Kept s cl (bind D r bound (record cl { parsed_args = map_update cl.parsed_args s.name f }))
  unfolding bind
  update-Kept s r bound cl f array = elim (Option-cases (r.type_info.variable)) [
    | inl e ↦ rw e (record { spec = refl; args = refl; entries = inr (f, array, refl) })
    | inr (v, e) ↦ rw e (record { spec = refl; args = refl; entries = inr (f, array, refl) })
  ]

  int-Kept :
      (s : ArgumentSpec D) (cl : CommandLine D) (p : Parsed ℤ)
      → AfterBuilt (Kept s cl) (build_int D s cl p)
  unfolding build_int
  int-Kept s cl (parsed v) = bind-Kept s s _ cl
  int-Kept s cl runtime_error = tt
  int-Kept s cl invalid_argument = tt
  int-Kept s cl out_of_range = tt
  int-Kept s cl range_error = tt

  double-Kept :
      (s : ArgumentSpec D) (cl : CommandLine D) (p : Parsed D.Double)
      → AfterBuilt (Kept s cl) (build_double D s cl p)
  unfolding build_double
  double-Kept s cl (parsed v) = bind-Kept s s _ cl
  double-Kept s cl runtime_error = tt
  double-Kept s cl invalid_argument = tt
  double-Kept s cl out_of_range = tt
  double-Kept s cl range_error = tt

  element-Kept :
      (s : ArgumentSpec D) (cl : CommandLine D) (v : Text) (m : Option (ArgumentMetaData D))
      → is_array s.type_info.data_type ≡ true
      → AfterBuilt (Kept s cl) (build_element D s cl v m)
  unfolding build_element
  element-Kept s cl v none array = bind-Kept s s _ cl
  element-Kept s cl v (some m) array = update-Kept s s _ cl (add_element D v) array

  pair-Kept :
      (s : ArgumentSpec D) (cl : CommandLine D) (v : Text × Text) (m : Option (ArgumentMetaData D))
      → is_array s.type_info.data_type ≡ true
      → AfterBuilt (Kept s cl) (build_pair D s cl v m)
  unfolding build_pair
  pair-Kept s cl v none array = bind-Kept s s _ cl
  pair-Kept s cl v (some m) array = update-Kept s s _ cl (add_pair D v) array

  build_typed-Kept :
      (t : DataType) (text : Text) (s : ArgumentSpec D) (cl : CommandLine D)
      → s.type_info.data_type ≡ t
      → AfterBuilt (Kept s cl) (build_typed D t text s cl)
  unfolding build_typed
  build_typed-Kept string_type text s cl e = bind-Kept s s _ cl
  build_typed-Kept int_type text s cl e = int-Kept s cl (stoi text)
  build_typed-Kept double_type text s cl e = double-Kept s cl (D.stod text)
  build_typed-Kept bool_type text s cl e = bind-Kept s s _ cl
  build_typed-Kept string_array text s cl e =
      element-Kept s cl text (map_find cl.parsed_args s.name) (rw e)
  build_typed-Kept string_pair_array text s cl e =
      pair-Kept s cl (split_pair text) (map_find cl.parsed_args s.name) (rw e)
  build_typed-Kept unknown_type text s cl e = tt

  pub build-Kept :
      (text : Text) (s : ArgumentSpec D) (cl : CommandLine D)
      → AfterBuilt (Kept s cl) (build_argument_value D text s cl)
  unfolding build_argument_value
  build-Kept text s cl = build_typed-Kept (s.type_info.data_type) text s cl refl

  pub bind-entries :
      (s : ArgumentSpec D) (bound : Bound D) (cl : CommandLine D)
      → ((bind D s bound cl).spec ≡ cl.spec) × ((bind D s bound cl).parsed_args ≡ cl.parsed_args)
  unfolding bind
  bind-entries s bound cl = elim (Option-cases (s.type_info.variable)) [
    | inl e ↦ rw e (refl, refl)
    | inr (v, e) ↦ rw e (refl, refl)
  ]
