-- ===== src/CommandLine/Configure.antt =====
-- From the arguments of a connection to its options.
use buildbox_common.Prelude.{List, [], ◌∷◌, ◌++◌, Option, Text, codes}
use buildbox_common.Connection.{ConnectionOptions}
use buildbox_common.Connection.Setters.{
  Key, remote_key, instance_key, server_cert_key, client_key_key, client_cert_key, access_token_key,
  retry_limit_key, retry_delay_key, token_reload_interval_key, load_balancing_policy_key,
}
use buildbox_common.CommandLine.Types.{Doubles, ArgumentSpec, CommandLine}

-- The name of an option that takes a text.
abbrev pub key_name : Key → Text
key_name remote_key = codes "remote"
key_name instance_key = codes "instance"
key_name server_cert_key = codes "server-cert"
key_name client_key_key = codes "client-key"
key_name client_cert_key = codes "client-cert"
key_name access_token_key = codes "access-token"
key_name retry_limit_key = codes "retry-limit"
key_name retry_delay_key = codes "retry-delay"
key_name token_reload_interval_key = codes "token-reload-interval"
key_name load_balancing_policy_key = codes "load-balancing-policy"

-- The member that `configureChannel` fills in for it.
abbrev pub member : Key → ConnectionOptions → Option Text
member remote_key o = o.url
member instance_key o = o.instance_name
member server_cert_key o = o.server_cert_path
member client_key_key o = o.client_key_path
member client_cert_key o = o.client_cert_path
member access_token_key o = o.access_token_path
member retry_limit_key o = o.retry_limit
member retry_delay_key o = o.retry_delay
member token_reload_interval_key o = o.token_reload_interval
member load_balancing_policy_key o = o.load_balancing_policy

module _ (D : Doubles) where
  abbrev with_prefix : Text → ArgumentSpec D → ArgumentSpec D
  with_prefix prefix s = record s { name = prefix ++ s.name }

  prefixed : Text → List (ArgumentSpec D) → List (ArgumentSpec D)
  prefixed prefix [] = []
  prefixed prefix (s ∷ specs) = with_prefix prefix s ∷ prefixed prefix specs
