-- ===== src/Connection/Tests.antt =====
-- Options written for a named connection, and read back.
use buildbox_common.Prelude.{◌≡◌, refl, inl, false, [], none, some, codes}
use buildbox_common.Connection.{ConnectionOptions, parse_arg, put_args}
use buildbox_common.Connection.Arguments.{parse_all, merged, parse_all-put_args}

abbrev defaults : ConnectionOptions
defaults = record {
  url = none;
  instance_name = some [];
  server_cert = none;
  server_cert_path = none;
  client_key = none;
  client_key_path = none;
  client_cert = none;
  client_cert_path = none;
  access_token_path = none;
  token_reload_interval = none;
  retry_limit = some (codes "4");
  retry_delay = some (codes "1000");
  load_balancing_policy = none;
  use_googleapi_auth = false;
}

abbrev remote : ConnectionOptions
remote = record defaults { url = some (codes "http://cas:50051"); retry_limit = some (codes "9") }

parse_all-put_args_example :
    parse_all (codes "cas-") (put_args remote (codes "cas-")) defaults
    ≡ some (merged remote defaults)
parse_all-put_args_example = parse_all-put_args remote defaults (codes "cas-") (inl refl)

-- With a prefix, the flag that `putArgs` writes is one that `parseArg` does not know.
flag_lost : parse_arg defaults (codes "cas-") (codes "--googleapi-auth") ≡ (false, defaults)
unfolding parse_arg
flag_lost = refl
