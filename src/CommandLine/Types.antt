-- ===== src/CommandLine/Types.antt =====
-- The specification of the arguments, their values, and the state of a `CommandLine`. There are no
-- floating-point numbers here: `double` and `std::stod` are the parameter `Doubles`.
use buildbox_common.Prelude.{ℕ, Bool, true, false, List, [], Option, none, Text}
use buildbox_common.Prelude.Int.{ℤ, pos}
use buildbox_common.Numbers.{Parsed}

pub record Doubles : Type 1 where
  pub Double : Type 0
  pub zero_double : Double
  pub stod : Text → Parsed Double

pub data DataType : Type 0 where
  string_type : DataType
  int_type : DataType
  double_type : DataType
  bool_type : DataType
  string_array : DataType
  string_pair_array : DataType
  unknown_type : DataType

-- `TypeInfo`: a type, and the number of the variable that `d_variable` points to, if it is not null.
pub record TypeInfo : Type 0 where
  pub data_type : DataType
  pub variable : Option ℕ

pub data Occurrence : Type 0 where
  optional : Occurrence
  required : Occurrence

pub data Constraint : Type 0 where
  with_arg : Constraint
  without_arg : Constraint

module _ (D : Doubles) where
  pub data DefaultValue : Type 0 where
    no_default : DefaultValue
    default_string : Text → DefaultValue
    default_int : ℤ → DefaultValue
    default_double : D.Double → DefaultValue
    default_bool : Bool → DefaultValue

  -- `DefaultValue::dataType`
  abbrev pub default_type : DefaultValue → DataType
  default_type no_default = unknown_type
  default_type (default_string v) = string_type
  default_type (default_int v) = int_type
  default_type (default_double v) = double_type
  default_type (default_bool v) = bool_type

  -- `hasValue`
  abbrev pub has_value : DefaultValue → Bool
  has_value no_default = false
  has_value (default_string v) = true
  has_value (default_int v) = true
  has_value (default_double v) = true
  has_value (default_bool v) = true

  pub record ArgumentSpec : Type 0 where
    pub name : Text
    pub desc : Text
    pub type_info : TypeInfo
    pub occurrence : Occurrence
    pub constraint : Constraint
    pub default_value : DefaultValue

  -- `isRequired`
  abbrev pub is_required : ArgumentSpec → Bool
  is_required spec = elim (spec.occurrence) [ optional ↦ false | required ↦ true ]

  -- `hasArgument`
  abbrev pub has_argument : ArgumentSpec → Bool
  has_argument spec = elim (spec.constraint) [ with_arg ↦ true | without_arg ↦ false ]

  -- `ArgumentValue`. The constructor leaves `d_bool` without a value, which is `none`.
  pub record ArgumentValue : Type 0 where
    pub str_value : Text
    pub int_value : ℤ
    pub double_value : D.Double
    pub bool_value : Option Bool
    pub vs_value : List Text
    pub vps_value : List (Text × Text)

  abbrev pub empty_value : ArgumentValue
  empty_value = record {
    str_value = [];
    int_value = pos 0;
    double_value = D.zero_double;
    bool_value = none;
    vs_value = [];
    vps_value = [];
  }

  -- What is written through a `d_variable`: an assignment, or an element that is appended.
  pub data Bound : Type 0 where
    bind_string : Text → Bound
    bind_int : ℤ → Bound
    bind_double : D.Double → Bound
    bind_bool : Bool → Bound
    bind_element : Text → Bound
    bind_pair : Text × Text → Bound

  -- `ArgumentMetaData`
  pub record ArgumentMetaData : Type 0 where
    pub argument_value : ArgumentValue
    pub argument_spec : ArgumentSpec

  -- The object: `args` is what `d_rawArgv` holds from `d_argIdx` on, and `positional_specs` what
  -- `d_spec` holds from `d_idxLastPositionalFound` on. `d_parsedArgs` is a list of pairs. `writes` is
  -- what was written through the pointers of the specification, in order.
  pub record CommandLine : Type 0 where
    pub spec : List ArgumentSpec
    pub parsed_args : List (Text × ArgumentMetaData)
    pub process_name : Text
    pub args : List Text
    pub positional_specs : List ArgumentSpec
    pub writes : List (ℕ × Bound)

  -- The constructor.
  abbrev pub make_command_line : List ArgumentSpec → CommandLine
  make_command_line spec = record {
    spec = spec;
    parsed_args = [];
    process_name = [];
    args = [];
    positional_specs = spec;
    writes = [];
  }
