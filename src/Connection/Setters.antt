-- ===== src/Connection/Setters.antt =====
-- The setters of `ConnectionOptions`, and the options that `parseArg` sets by the same fields.
-- A setter keeps `value.c_str()`: the caller's string is taken to outlive the object.
use buildbox_common.Prelude.{◌≡◌, refl, ◌∙◌, Bool, true, ◌++◌, some, Text, codes}
use buildbox_common.Connection.{ConnectionOptions, parse_arg, parse_rest}
use buildbox_common.Connection.Arguments.{parse-put}

abbrev pub set_url : ConnectionOptions → Text → ConnectionOptions
set_url o value = record o { url = some value }

abbrev pub set_instance_name : ConnectionOptions → Text → ConnectionOptions
set_instance_name o value = record o { instance_name = some value }

abbrev pub set_server_cert_path : ConnectionOptions → Text → ConnectionOptions
set_server_cert_path o value = record o { server_cert_path = some value }

abbrev pub set_client_key_path : ConnectionOptions → Text → ConnectionOptions
set_client_key_path o value = record o { client_key_path = some value }

abbrev pub set_client_cert_path : ConnectionOptions → Text → ConnectionOptions
set_client_cert_path o value = record o { client_cert_path = some value }

abbrev pub set_access_token_path : ConnectionOptions → Text → ConnectionOptions
set_access_token_path o value = record o { access_token_path = some value }

abbrev pub set_retry_limit : ConnectionOptions → Text → ConnectionOptions
set_retry_limit o value = record o { retry_limit = some value }

abbrev pub set_retry_delay : ConnectionOptions → Text → ConnectionOptions
set_retry_delay o value = record o { retry_delay = some value }

abbrev pub set_token_reload_interval : ConnectionOptions → Text → ConnectionOptions
set_token_reload_interval o value = record o { token_reload_interval = some value }

abbrev pub set_load_balancing_policy : ConnectionOptions → Text → ConnectionOptions
set_load_balancing_policy o value = record o { load_balancing_policy = some value }

abbrev pub set_server_cert : ConnectionOptions → Text → ConnectionOptions
set_server_cert o value = record o { server_cert = some value }

abbrev pub set_client_key : ConnectionOptions → Text → ConnectionOptions
set_client_key o value = record o { client_key = some value }

abbrev pub set_client_cert : ConnectionOptions → Text → ConnectionOptions
set_client_cert o value = record o { client_cert = some value }

abbrev pub set_use_googleapi_auth : ConnectionOptions → Bool → ConnectionOptions
set_use_googleapi_auth o value = record o { use_googleapi_auth = value }

-- The options that take a value.
pub data Key : Type 0 where
  remote_key : Key
  instance_key : Key
  server_cert_key : Key
  client_key_key : Key
  client_cert_key : Key
  access_token_key : Key
  retry_limit_key : Key
  retry_delay_key : Key
  token_reload_interval_key : Key
  load_balancing_policy_key : Key

-- The name of the option, with its equals sign.
abbrev pub name_of : Key → Text
name_of remote_key = codes "remote="
name_of instance_key = codes "instance="
name_of server_cert_key = codes "server-cert="
name_of client_key_key = codes "client-key="
name_of client_cert_key = codes "client-cert="
name_of access_token_key = codes "access-token="
name_of retry_limit_key = codes "retry-limit="
name_of retry_delay_key = codes "retry-delay="
name_of token_reload_interval_key = codes "token-reload-interval="
name_of load_balancing_policy_key = codes "load-balancing-policy="

abbrev pub setter : Key → ConnectionOptions → Text → ConnectionOptions
setter remote_key = set_url
setter instance_key = set_instance_name
setter server_cert_key = set_server_cert_path
setter client_key_key = set_client_key_path
setter client_cert_key = set_client_cert_path
setter access_token_key = set_access_token_path
setter retry_limit_key = set_retry_limit
setter retry_delay_key = set_retry_delay
setter token_reload_interval_key = set_token_reload_interval
setter load_balancing_policy_key = set_load_balancing_policy

rest-setter :
    (k : Key) (o : ConnectionOptions) (value : Text)
    → parse_rest o (name_of k ++ value) ≡ (true, setter k o value)
unfolding parse_rest
rest-setter remote_key o value = refl
rest-setter instance_key o value = refl
rest-setter server_cert_key o value = refl
rest-setter client_key_key o value = refl
rest-setter client_cert_key o value = refl
rest-setter access_token_key o value = refl
rest-setter retry_limit_key o value = refl
rest-setter retry_delay_key o value = refl
rest-setter token_reload_interval_key o value = refl
rest-setter load_balancing_policy_key o value = refl

-- Each option that takes a value is recognised behind any prefix, and does what its setter does with
-- all that follows the first equals sign; the certificates and the key are given by their paths.
pub parse_arg-setter :
    (k : Key) (o : ConnectionOptions) (prefix value : Text)
    → parse_arg o prefix (codes "--" ++ (prefix ++ (name_of k ++ value))) ≡ (true, setter k o value)
parse_arg-setter k o prefix value = parse-put o prefix (name_of k ++ value) ∙ rest-setter k o value
