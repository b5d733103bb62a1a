-- ===== src/CommandLine/Tests.antt =====
-- The theorems at a command line of a tool with options of several types.
use buildbox_common.Prelude.{
  ◌≡◌, refl, ℕ, Bool, true, false, ◌||◌, List, [], ◌∷◌, ◌++◌, map, Option, none, some, Text, codes,
  ◌==◌, text_eq,
}
use buildbox_common.Prelude.Int.{pos}
use buildbox_common.Numbers.{stoul}
use buildbox_common.CommandLine.Types.{
  Doubles, DataType, string_type, int_type, string_array, optional, required, with_arg,
  DefaultValue, no_default, default_int, ArgumentSpec, CommandLine, make_command_line, bind_string,
}
use buildbox_common.Prelude.Maps.{map_find}
use buildbox_common.CommandLine.Options.{
  Outcome, finished, threw_error, undefined_read, parse_options,
}
use buildbox_common.CommandLine.Parse.{parse, parse_positionals, only_help}
use buildbox_common.CommandLine.Getters.{get_string, get_vs_or}
use buildbox_common.CommandLine.Complete.{parse-all_settled, all_settled}
use buildbox_common.CommandLine.Forms.{long_name, long_option, parse_options-forms}
use buildbox_common.CommandLine.Arrays.{parse_options-get_vs}
use buildbox_common.CommandLine.First.{parse-get_string}
use buildbox_common.Connection.{ConnectionOptions}
use buildbox_common.CommandLine.Channel.{connection_spec}
use buildbox_common.CommandLine.Bindings.{parse_positionals-bindings, positionals, bindings}

-- Numbers without a fraction.
abbrev doubles : Doubles
doubles = record { Double = ℕ; zero_double = 0; stod = stoul }

abbrev option_of : Text → DataType → DefaultValue doubles → ArgumentSpec doubles
option_of name type default = record {
  name = name;
  desc = [];
  type_info = record { data_type = type; variable = none };
  occurrence = optional;
  constraint = with_arg;
  default_value = default;
}

abbrev host_option : ArgumentSpec doubles
host_option = record (option_of (codes "host") string_type no_default) { occurrence = required }

abbrev tag_option : ArgumentSpec doubles
tag_option = option_of (codes "tag") string_array no_default

abbrev input : ArgumentSpec doubles
input = record (option_of [] string_type no_default) {
  type_info = record { data_type = string_type; variable = some 0 };
  occurrence = required;
}

abbrev output : ArgumentSpec doubles
output = record (option_of [] string_type no_default) {
  type_info = record { data_type = string_type; variable = some 1 };
}

abbrev tool_spec : List (ArgumentSpec doubles)
tool_spec =
    host_option
    ∷ tag_option
    ∷ option_of (codes "level") int_type (default_int (pos 3))
    ∷ input
    ∷ output
    ∷ []

abbrev tool : CommandLine doubles
tool = make_command_line doubles tool_spec

abbrev arguments : List Text
arguments =
    codes "tool"
    ∷ codes "--host=a"
    ∷ codes "--tag"
    ∷ codes "x"
    ∷ codes "--host=b"
    ∷ codes "in.txt"
    ∷ []

-- The object that an outcome leaves.
abbrev end_of : Outcome doubles → CommandLine doubles
end_of (finished result cl) = cl
end_of threw_error = tool
end_of undefined_read = tool

parse-all_settled_example :
    (only_help doubles (end_of (parse doubles arguments tool))
      || all_settled doubles (end_of (parse doubles arguments tool)) tool_spec)
    ≡ true
unfolding parse buildbox_common.CommandLine.Options.round_of
    buildbox_common.CommandLine.Options.store_value buildbox_common.Prelude.starts_with
    buildbox_common.CommandLine.Values.build_element buildbox_common.CommandLine.Parse.apply_default
    buildbox_common.CommandLine.Parse.put_default
    buildbox_common.CommandLine.Parse.is_required_positional
parse-all_settled_example =
    parse-all_settled doubles arguments tool (end_of (parse doubles arguments tool)) refl

parse_options-forms_example :
    parse_options doubles (codes "--host" ∷ codes "a" ∷ codes "--level=1" ∷ []) tool
    ≡ parse_options doubles (codes "--host=a" ∷ codes "--level=1" ∷ []) tool
unfolding buildbox_common.CommandLine.Forms.has_assign
    buildbox_common.CommandLine.Options.find_option_spec text_eq buildbox_common.Prelude.starts_with
parse_options-forms_example =
    parse_options-forms doubles (codes "host") (codes "a") (codes "--level=1" ∷ []) host_option tool
      refl refl refl refl

parse_options-get_vs_example :
    (cl : CommandLine doubles) × (parse_options doubles
        (codes "--tag=x" ∷ codes "--tag=y" ∷ [])
        tool
      ≡ finished true cl)
    × (get_vs_or doubles cl (codes "tag") []
        ≡ get_vs_or doubles tool (codes "tag") [] ++ codes "x" ∷ codes "y" ∷ [])
unfolding buildbox_common.CommandLine.Forms.has_assign
    buildbox_common.CommandLine.Options.find_option_spec text_eq
parse_options-get_vs_example =
    parse_options-get_vs doubles (codes "tag") tag_option (codes "x" ∷ codes "y" ∷ []) tool refl
      refl refl

parse-get_string_example :
    get_string doubles (end_of (parse doubles arguments tool)) (codes "host") ≡ some (codes "a")
unfolding text_eq buildbox_common.CommandLine.Forms.has_assign
    buildbox_common.CommandLine.Options.find_option_spec map_find parse
    buildbox_common.CommandLine.Options.round_of buildbox_common.CommandLine.Options.store_value
    buildbox_common.Prelude.starts_with buildbox_common.CommandLine.Values.build_element
    buildbox_common.CommandLine.Parse.apply_default buildbox_common.CommandLine.Parse.put_default
    buildbox_common.CommandLine.Parse.is_required_positional
parse-get_string_example =
    parse-get_string doubles (codes "tool") (codes "host") (codes "a")
      (codes "--tag" ∷ codes "x" ∷ codes "--host=b" ∷ codes "in.txt" ∷ []) host_option tool
      (end_of (parse doubles arguments tool)) refl refl refl refl refl refl

abbrev waiting : CommandLine doubles
waiting = record tool { args = codes "in.txt" ∷ codes "out.txt" ∷ codes "more.txt" ∷ [] }

parse_positionals-bindings_example :
    (cl : CommandLine doubles) × (parse_positionals doubles waiting ≡ finished true cl)
    × (cl.writes ≡ [] ++ bindings doubles (positionals doubles tool_spec) waiting.args)
unfolding positionals text_eq buildbox_common.CommandLine.Parse.count_required
    buildbox_common.CommandLine.Parse.is_required_positional
parse_positionals-bindings_example =
    parse_positionals-bindings doubles waiting (refl, (refl, tt)) refl

-- The two writes.
bindings_run :
    bindings doubles (positionals doubles tool_spec) waiting.args
    ≡ (0, bind_string (codes "in.txt")) ∷ (1, bind_string (codes "out.txt")) ∷ []
unfolding bindings positionals text_eq
bindings_run = refl

abbrev worker : List Text
worker =
    codes "worker"
    ∷ codes "--cas-retry-limit=7"
    ∷ codes "--cas-googleapi-auth=true"
    ∷ codes "--cas-retry-limit=8"
    ∷ []

abbrev cas_line : CommandLine doubles
cas_line = make_command_line doubles (connection_spec doubles (codes "CAS") (codes "cas-") false)

abbrev no_options : ConnectionOptions
no_options = record {
  url = none;
  instance_name = none;
  server_cert = none;
  server_cert_path = none;
  client_key = none;
  client_key_path = none;
  client_cert = none;
  client_cert_path = none;
  access_token_path = none;
  token_reload_interval = none;
  retry_limit = none;
  retry_delay = none;
  load_balancing_policy = none;
  use_googleapi_auth = false;
}

abbrev cas_options : ConnectionOptions
cas_options = record no_options {
  instance_name = some [];
  retry_limit = some (codes "7");
  retry_delay = some (codes "1000");
  use_googleapi_auth = true;
}
