-- ===== src/Connection.antt =====
-- `ConnectionOptions` (buildbox-common/buildboxcommon/buildboxcommon_connectionoptions.h and .cpp).
-- A `const char *` field that is null is `none`. The strings that the pointers refer to are taken to
-- outlive the object.
pub mod Arguments
pub mod Setters
mod Tests
use buildbox_common.Prelude.{
  ℕ, Bool, true, false, not, ◌&&◌, ◌||◌, List, [], ◌∷◌, ◌++◌, Option, none, some, ◌==◌,
  if◌then◌else◌, Text, text_eq, codes, starts_with,
}

pub record ConnectionOptions : Type 0 where
  pub url : Option Text
  pub instance_name : Option Text
  pub server_cert : Option Text
  pub server_cert_path : Option Text
  pub client_key : Option Text
  pub client_key_path : Option Text
  pub client_cert : Option Text
  pub client_cert_path : Option Text
  pub access_token_path : Option Text
  pub token_reload_interval : Option Text
  pub retry_limit : Option Text
  pub retry_delay : Option Text
  pub load_balancing_policy : Option Text
  pub use_googleapi_auth : Bool

-- `strncmp(arg, prefix, strlen(prefix)) != 0`, and else `arg + strlen(prefix)`.
unfoldable pub strip : Text → Text → Option Text
strip [] arg = some arg
strip (x ∷ xs) [] = none
strip (x ∷ xs) (y ∷ ys) = let rest = strip xs ys in if x == y then rest else none

-- `strchr(arg, '=')`: the key and the value, if there is an equals sign.
unfoldable pub cut_assign : Text → Text × Option Text
cut_assign [] = ([], none)
cut_assign (c ∷ rest) =
    let (key, value) = cut_assign rest in if c == b'=' then ([], some rest) else (c ∷ key, value)

-- The chain of tests on the key of an assignment.
unfoldable pub set_key : ConnectionOptions → Text → Text → Bool × ConnectionOptions
set_key o key value =
    if text_eq key (codes "remote")
    then (true, record o { url = some value })
    else if text_eq key (codes "instance")
    then (true, record o { instance_name = some value })
    else if text_eq key (codes "server-cert")
    then (true, record o { server_cert_path = some value })
    else if text_eq key (codes "client-key")
    then (true, record o { client_key_path = some value })
    else if text_eq key (codes "client-cert")
    then (true, record o { client_cert_path = some value })
    else if text_eq key (codes "access-token")
    then (true, record o { access_token_path = some value })
    else if text_eq key (codes "retry-limit")
    then (true, record o { retry_limit = some value })
    else if text_eq key (codes "retry-delay")
    then (true, record o { retry_delay = some value })
    else if text_eq key (codes "token-reload-interval")
    then (true, record o { token_reload_interval = some value })
    else if text_eq key (codes "load-balancing-policy")
    then (true, record o { load_balancing_policy = some value })
    else (false, o)

-- What follows the prefix.
unfoldable pub parse_rest : ConnectionOptions → Text → Bool × ConnectionOptions
unfolding cut_assign set_key text_eq
parse_rest o arg =
    let (key, assigned) = cut_assign arg in
    elim assigned [
      | some value ↦ set_key o key value
      | none ↦
          if text_eq arg (codes "googleapi-auth")
          then (true, record o { use_googleapi_auth = true })
          else (false, o)
    ]

-- `parseArg`; a null `prefix` is the empty one, and a null `arg` is refused like one with no dashes.
unfoldable pub parse_arg : ConnectionOptions → Text → Text → Bool × ConnectionOptions
unfolding strip parse_rest
parse_arg o prefix arg = elim (strip (codes "--") arg) [
  | none ↦ (false, o)
  | some named ↦ elim (strip prefix named) [ none ↦ (false, o) | some rest ↦ parse_rest o rest ]
]

abbrev pub put_arg : Text → Text → Option Text → List Text
put_arg prefix name none = []
put_arg prefix name (some value) = (codes "--" ++ (prefix ++ (name ++ value))) ∷ []

abbrev pub put_flag : Bool → List Text
put_flag true = codes "--googleapi-auth" ∷ []
put_flag false = []

-- `putArgs`: what it pushes onto the end of `out`.
unfoldable pub put_args : ConnectionOptions → Text → List Text
put_args o prefix =
    put_arg prefix (codes "remote=") o.url
    ++ (put_arg prefix (codes "instance=") o.instance_name
        ++ (put_arg prefix (codes "server-cert=") o.server_cert_path
            ++ (put_arg prefix (codes "client-key=") o.client_key_path
                ++ (put_arg prefix (codes "client-cert=") o.client_cert_path
                    ++ (put_arg prefix (codes "access-token=") o.access_token_path
                        ++ (put_arg prefix (codes "token-reload-interval=") o.token_reload_interval
                            ++ (put_arg prefix (codes "retry-limit=") o.retry_limit
                                ++ (put_arg prefix (codes "retry-delay=") o.retry_delay
                                    ++ (put_flag o.use_googleapi_auth
                                        ++ put_arg prefix (codes "load-balancing-policy=")
                                            o.load_balancing_policy)))))))))
