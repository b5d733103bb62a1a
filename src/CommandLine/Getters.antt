-- ===== src/CommandLine/Getters.antt =====
-- The getters of `CommandLine`. Those without a default throw where the argument is missing, which
-- is `none` of the outer `Option`.
use buildbox_common.Prelude.{Bool, List, Option, none, some, Text}
use buildbox_common.Prelude.Int.{ℤ}
use buildbox_common.CommandLine.Types.{Doubles, ArgumentMetaData, CommandLine}
use buildbox_common.Prelude.Maps.{map_find}

module _ (D : Doubles) where
  abbrev pub member_of :
      {A : Type 0} → (ArgumentMetaData D → A) → Option (ArgumentMetaData D) → Option A
  member_of member none = none
  member_of member (some m) = some (member m)

  abbrev pub member_or :
      {A : Type 0} → (ArgumentMetaData D → A) → A → Option (ArgumentMetaData D) → A
  member_or member default none = default
  member_or member default (some m) = member m

  -- The member of the value of an argument that is there.
  abbrev pub get : {A : Type 0} → (ArgumentMetaData D → A) → CommandLine D → Text → Option A
  get member cl name = member_of member (map_find cl.parsed_args name)

  abbrev pub get_or : {A : Type 0} → (ArgumentMetaData D → A) → CommandLine D → Text → A → A
  get_or member cl name default = member_or member default (map_find cl.parsed_args name)

  -- `getString`
  unfoldable pub get_string : CommandLine D → Text → Option Text
  unfolding map_find
  get_string = get (λ m. m.argument_value.str_value)

  unfoldable pub get_string_or : CommandLine D → Text → Text → Text
  unfolding map_find
  get_string_or = get_or (λ m. m.argument_value.str_value)

  -- `getInt`
  unfoldable pub get_int : CommandLine D → Text → Option ℤ
  unfolding map_find
  get_int = get (λ m. m.argument_value.int_value)

  unfoldable pub get_int_or : CommandLine D → Text → ℤ → ℤ
  unfolding map_find
  get_int_or = get_or (λ m. m.argument_value.int_value)

  -- `getDouble`
  unfoldable pub get_double : CommandLine D → Text → Option D.Double
  unfolding map_find
  get_double = get (λ m. m.argument_value.double_value)

  unfoldable pub get_double_or : CommandLine D → Text → D.Double → D.Double
  unfolding map_find
  get_double_or = get_or (λ m. m.argument_value.double_value)

  -- `getBool`. The inner `none` is the member that no one has given a value.
  unfoldable pub get_bool : CommandLine D → Text → Option (Option Bool)
  unfolding map_find
  get_bool = get (λ m. m.argument_value.bool_value)

  unfoldable pub get_bool_or : CommandLine D → Text → Option Bool → Option Bool
  unfolding map_find
  get_bool_or = get_or (λ m. m.argument_value.bool_value)

  -- `getVS`
  unfoldable pub get_vs_or : CommandLine D → Text → List Text → List Text
  unfolding map_find
  get_vs_or = get_or (λ m. m.argument_value.vs_value)

  -- `getVPS`
  unfoldable pub get_vps_or : CommandLine D → Text → List (Text × Text) → List (Text × Text)
  unfolding map_find
  get_vps_or = get_or (λ m. m.argument_value.vps_value)
