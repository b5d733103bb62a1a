-- ===== src/CommandLine/Channel.antt =====
-- `ConnectionOptionsCommandLine`
-- (buildbox-common/buildboxcommon/buildboxcommon_connectionoptions_commandline.cpp): the options of a
-- connection on a command line, and the connection that they configure.
use buildbox_common.Prelude.{
  Bool, false, List, [], ◌∷◌, ◌++◌, Option, none, some, if◌then◌else◌, Text, codes,
}
use buildbox_common.Connection.{ConnectionOptions}
use buildbox_common.CommandLine.Types.{
  Doubles, DataType, string_type, bool_type, optional, required, with_arg, DefaultValue, no_default,
  default_string, default_bool, ArgumentSpec, CommandLine,
}
use buildbox_common.Prelude.Maps.{map_find}
use buildbox_common.CommandLine.Options.{exists_arg}
use buildbox_common.CommandLine.Getters.{get_string, get_bool}

module _ (D : Doubles) where
  -- An optional argument of a connection.
  abbrev pub connection_arg : Text → Text → Text → DataType → DefaultValue D → ArgumentSpec D
  connection_arg prefix name desc type default = record {
    name = prefix ++ name;
    desc = desc;
    type_info = record { data_type = type; variable = none };
    occurrence = optional;
    constraint = with_arg;
    default_value = default;
  }

  -- The constructor: the specification that it builds.
  unfoldable pub connection_spec : Text → Text → Bool → List (ArgumentSpec D)
  connection_spec service prefix connection_required =
      record (connection_arg prefix (codes "remote")
        (codes "URL for the " ++ (service ++ codes " service")) string_type no_default) {
          occurrence = if connection_required then required else optional;
        }
      ∷ connection_arg prefix (codes "instance")
          (codes "Name of the " ++ (service ++ codes " instance")) string_type (default_string [])
      ∷ connection_arg prefix (codes "server-cert")
          (codes "Public server certificate for " ++ (service ++ codes " TLS (PEM-encoded)"))
          string_type no_default
      ∷ connection_arg prefix (codes "client-key")
          (codes "Private client key for " ++ (service ++ codes " TLS (PEM-encoded)")) string_type
          no_default
      ∷ connection_arg prefix (codes "client-cert")
          (codes "Private client certificate for " ++ (service ++ codes " TLS (PEM-encoded)"))
          string_type no_default
      ∷ connection_arg prefix (codes "access-token")
          (codes "Access Token for authentication "
            ++ (service
                ++ codes
                    " (e.g. JWT, OAuth access token, etc), will be included as an HTTP Authorization bearer token"))
          string_type no_default
      ∷ connection_arg prefix (codes "token-reload-interval")
          (codes "How long to wait before refreshing access token") string_type no_default
      ∷ connection_arg prefix (codes "googleapi-auth")
          (codes "Use GoogleAPIAuth for " ++ (service ++ codes " service")) bool_type
          (default_bool false)
      ∷ connection_arg prefix (codes "retry-limit")
          (codes "Number of times to retry on grpc errors for " ++ (service ++ codes " service"))
          string_type (default_string (codes "4"))
      ∷ connection_arg prefix (codes "retry-delay")
          (codes "How long to wait in milliseconds before the first grpc retry for "
            ++ (service ++ codes " service"))
          string_type (default_string (codes "1000"))
      ∷ connection_arg prefix (codes "load-balancing-policy")
          (codes "Which grpc load balancing policy to use for "
            ++ (service ++ codes " service.\nValid options are 'round_robin' and 'grpclb'"))
          string_type no_default
      ∷ []

  -- The text of an argument that exists, or a null pointer.
  unfoldable pub given : CommandLine D → Text → Option Text
  unfolding map_find get_string
  given cl name = if exists_arg D cl name then get_string D cl name else none

  -- The flag of an argument that exists, which may have no value, or false.
  unfoldable pub flag : CommandLine D → Text → Option Bool
  unfolding map_find get_bool
  flag cl name = elim (get_bool D cl name) [ none ↦ some false | some value ↦ value ]

  -- The members that `configureChannel` sets, with the flag for an argument.
  unfoldable pub fill : CommandLine D → Text → ConnectionOptions → Bool → ConnectionOptions
  unfolding given
  fill cl prefix channel google = record channel {
    url = given cl (prefix ++ codes "remote");
    instance_name = given cl (prefix ++ codes "instance");
    server_cert_path = given cl (prefix ++ codes "server-cert");
    client_key_path = given cl (prefix ++ codes "client-key");
    client_cert_path = given cl (prefix ++ codes "client-cert");
    access_token_path = given cl (prefix ++ codes "access-token");
    token_reload_interval = given cl (prefix ++ codes "token-reload-interval");
    use_googleapi_auth = google;
    retry_limit = given cl (prefix ++ codes "retry-limit");
    retry_delay = given cl (prefix ++ codes "retry-delay");
    load_balancing_policy = given cl (prefix ++ codes "load-balancing-policy");
  }

  -- `configureChannel`, on a channel that is not null; `none` where it copies a flag without a value.
  unfoldable pub configure_channel :
      CommandLine D → Text → ConnectionOptions → Option ConnectionOptions
  unfolding fill flag
  configure_channel cl prefix channel = elim (flag cl (prefix ++ codes "googleapi-auth")) [
    | none ↦ none
    | some google ↦ some (fill cl prefix channel google)
  ]
