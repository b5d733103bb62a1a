-- ===== src/Connection/Arguments.antt =====
-- `parseArg` reads what `putArgs` writes.
use buildbox_common.Prelude.{
  ◌≡◌, ◌⊎◌, refl, sym, ap, ◌∙◌, inl, inr, Bool, true, false, ◌||◌, List, [], ◌∷◌, ◌++◌, Option,
  none, some, if◌then◌else◌, arith, Text, text_eq, codes,
}
use buildbox_common.Connection.{
  ConnectionOptions, strip, cut_assign, parse_rest, parse_arg, put_arg, put_flag, put_args,
}

strip-append : (p s : Text) → strip p (p ++ s) ≡ some s
unfolding strip
strip-append [] s = refl
strip-append (x ∷ xs) s = ground (arith, strip-append xs s)

pub parse-put :
    (o : ConnectionOptions) (prefix rest : Text)
    → parse_arg o prefix (codes "--" ++ (prefix ++ rest)) ≡ parse_rest o rest
unfolding parse_arg
parse-put o prefix rest = rw (strip-append prefix rest, parse_arg)

-- Parsing a list of arguments; `none` if one is not recognised.
pub parse_all : Text → List Text → ConnectionOptions → Option ConnectionOptions
parse_all prefix [] o = some o
parse_all prefix (a ∷ rest) o =
    let (known, o') = parse_arg o prefix a in
    let more = parse_all prefix rest o' in if known then more else none

abbrev then_parse : Text → List Text → Option ConnectionOptions → Option ConnectionOptions
then_parse prefix args none = none
then_parse prefix args (some o) = parse_all prefix args o

parse_all-append :
    (prefix : Text) (xs ys : List Text) (o : ConnectionOptions)
    → parse_all prefix (xs ++ ys) o ≡ then_parse prefix ys (parse_all prefix xs o)
unfolding parse_all
parse_all-append prefix [] ys o = refl
parse_all-append prefix (a ∷ xs) ys o =
    ground (arith, parse_all-append prefix xs ys (parse_arg o prefix a).1)

-- The field that was put, and else the one that was there.
abbrev pub or_else : Option Text → Option Text → Option Text
or_else (some v) old = some v
or_else none old = old

-- The options of `o` that are put, over those of `s`.
abbrev pub merged : ConnectionOptions → ConnectionOptions → ConnectionOptions
merged o s = record s {
  url = or_else o.url s.url;
  instance_name = or_else o.instance_name s.instance_name;
  server_cert_path = or_else o.server_cert_path s.server_cert_path;
  client_key_path = or_else o.client_key_path s.client_key_path;
  client_cert_path = or_else o.client_cert_path s.client_cert_path;
  access_token_path = or_else o.access_token_path s.access_token_path;
  token_reload_interval = or_else o.token_reload_interval s.token_reload_interval;
  retry_limit = or_else o.retry_limit s.retry_limit;
  retry_delay = or_else o.retry_delay s.retry_delay;
  load_balancing_policy = or_else o.load_balancing_policy s.load_balancing_policy;
  use_googleapi_auth = o.use_googleapi_auth || s.use_googleapi_auth;
}

-- One field, given what parsing its assignment does.
put_one :
    (prefix name : Text) (m old : Option Text) (s : ConnectionOptions)
    (set : Option Text → ConnectionOptions)
    → ((v : Text) → parse_rest s (name ++ v) ≡ (true, set (some v)))
    → set old ≡ s
    → parse_all prefix (put_arg prefix name m) s ≡ some (set (or_else m old))
unfolding parse_all
put_one prefix name none old s set h e = ap some (sym e)
put_one prefix name (some v) old s set h e =
    rw (parse-put s prefix (name ++ v), parse_all) (rw (h v))

put_url :
    (prefix : Text) (m : Option Text) (s : ConnectionOptions)
    → parse_all prefix (put_arg prefix (codes "remote=") m) s
      ≡ some (record s { url = or_else m s.url })
unfolding parse_rest
put_url prefix m s =
    put_one prefix (codes "remote=") m s.url s (λ x. record s { url = x }) (λ v. refl) refl

put_instance :
    (prefix : Text) (m : Option Text) (s : ConnectionOptions)
    → parse_all prefix (put_arg prefix (codes "instance=") m) s
      ≡ some (record s { instance_name = or_else m s.instance_name })
unfolding parse_rest
put_instance prefix m s =
    put_one prefix (codes "instance=") m s.instance_name s (λ x. record s { instance_name = x })
      (λ v. refl) refl

put_server_cert :
    (prefix : Text) (m : Option Text) (s : ConnectionOptions)
    → parse_all prefix (put_arg prefix (codes "server-cert=") m) s
      ≡ some (record s { server_cert_path = or_else m s.server_cert_path })
unfolding parse_rest
put_server_cert prefix m s =
    put_one prefix (codes "server-cert=") m s.server_cert_path s
      (λ x. record s { server_cert_path = x }) (λ v. refl) refl

put_client_key :
    (prefix : Text) (m : Option Text) (s : ConnectionOptions)
    → parse_all prefix (put_arg prefix (codes "client-key=") m) s
      ≡ some (record s { client_key_path = or_else m s.client_key_path })
unfolding parse_rest
put_client_key prefix m s =
    put_one prefix (codes "client-key=") m s.client_key_path s
      (λ x. record s { client_key_path = x }) (λ v. refl) refl

put_client_cert :
    (prefix : Text) (m : Option Text) (s : ConnectionOptions)
    → parse_all prefix (put_arg prefix (codes "client-cert=") m) s
      ≡ some (record s { client_cert_path = or_else m s.client_cert_path })
unfolding parse_rest
put_client_cert prefix m s =
    put_one prefix (codes "client-cert=") m s.client_cert_path s
      (λ x. record s { client_cert_path = x }) (λ v. refl) refl

put_access_token :
    (prefix : Text) (m : Option Text) (s : ConnectionOptions)
    → parse_all prefix (put_arg prefix (codes "access-token=") m) s
      ≡ some (record s { access_token_path = or_else m s.access_token_path })
unfolding parse_rest
put_access_token prefix m s =
    put_one prefix (codes "access-token=") m s.access_token_path s
      (λ x. record s { access_token_path = x }) (λ v. refl) refl

put_reload :
    (prefix : Text) (m : Option Text) (s : ConnectionOptions)
    → parse_all prefix (put_arg prefix (codes "token-reload-interval=") m) s
      ≡ some (record s { token_reload_interval = or_else m s.token_reload_interval })
unfolding parse_rest
put_reload prefix m s =
    put_one prefix (codes "token-reload-interval=") m s.token_reload_interval s
      (λ x. record s { token_reload_interval = x }) (λ v. refl) refl

put_limit :
    (prefix : Text) (m : Option Text) (s : ConnectionOptions)
    → parse_all prefix (put_arg prefix (codes "retry-limit=") m) s
      ≡ some (record s { retry_limit = or_else m s.retry_limit })
unfolding parse_rest
put_limit prefix m s =
    put_one prefix (codes "retry-limit=") m s.retry_limit s (λ x. record s { retry_limit = x })
      (λ v. refl) refl

put_delay :
    (prefix : Text) (m : Option Text) (s : ConnectionOptions)
    → parse_all prefix (put_arg prefix (codes "retry-delay=") m) s
      ≡ some (record s { retry_delay = or_else m s.retry_delay })
unfolding parse_rest
put_delay prefix m s =
    put_one prefix (codes "retry-delay=") m s.retry_delay s (λ x. record s { retry_delay = x })
      (λ v. refl) refl

put_policy :
    (prefix : Text) (m : Option Text) (s : ConnectionOptions)
    → parse_all prefix (put_arg prefix (codes "load-balancing-policy=") m) s
      ≡ some (record s { load_balancing_policy = or_else m s.load_balancing_policy })
unfolding parse_rest
put_policy prefix m s =
    put_one prefix (codes "load-balancing-policy=") m s.load_balancing_policy s
      (λ x. record s { load_balancing_policy = x }) (λ v. refl) refl

put_google :
    (prefix : Text) (b : Bool) (s : ConnectionOptions)
    → b ≡ false ⊎ prefix ≡ []
    → parse_all prefix (put_flag b) s
      ≡ some (record s { use_googleapi_auth = b || s.use_googleapi_auth })
unfolding parse_all parse_arg strip parse_rest cut_assign text_eq
put_google prefix false s h = refl
put_google prefix true s (inl h) = cc
put_google prefix true s (inr h) = rw h refl

-- The assignments of one field are read before the rest.
put_then :
    (prefix : Text) (xs ys : List Text) (s s' : ConnectionOptions)
    → parse_all prefix xs s ≡ some s'
    → parse_all prefix (xs ++ ys) s ≡ parse_all prefix ys s'
put_then prefix xs ys s s' h = parse_all-append prefix xs ys s ∙ ap (then_parse prefix ys) h

-- `parseArg` of every argument that `putArgs` writes, in order and with the same prefix, recognises
-- each of them, and sets the fields that were present to their values, leaving every other field
-- as it was: on condition that Google API authentication is off or the prefix is empty.
pub parse_all-put_args :
    (o s : ConnectionOptions) (prefix : Text)
    → o.use_googleapi_auth ≡ false ⊎ prefix ≡ []
    → parse_all prefix (put_args o prefix) s ≡ some (merged o s)
unfolding put_args
parse_all-put_args o s prefix h =
    let s1 : ConnectionOptions = record s { url = or_else o.url s.url } in
    let s2 : ConnectionOptions = record s1 {
      instance_name = or_else o.instance_name s1.instance_name;
    } in
    let s3 : ConnectionOptions = record s2 {
      server_cert_path = or_else o.server_cert_path s2.server_cert_path;
    } in
    let s4 : ConnectionOptions = record s3 {
      client_key_path = or_else o.client_key_path s3.client_key_path;
    } in
    let s5 : ConnectionOptions = record s4 {
      client_cert_path = or_else o.client_cert_path s4.client_cert_path;
    } in
    let s6 : ConnectionOptions = record s5 {
      access_token_path = or_else o.access_token_path s5.access_token_path;
    } in
    let s7 : ConnectionOptions = record s6 {
      token_reload_interval = or_else o.token_reload_interval s6.token_reload_interval;
    } in
    let s8 : ConnectionOptions = record s7 { retry_limit = or_else o.retry_limit s7.retry_limit } in
    let s9 : ConnectionOptions = record s8 { retry_delay = or_else o.retry_delay s8.retry_delay } in
    let s10 : ConnectionOptions = record s9 {
      use_googleapi_auth = o.use_googleapi_auth || s9.use_googleapi_auth;
    } in
    put_then prefix _ _ s s1 (put_url prefix o.url s)
    ∙ put_then prefix _ _ s1 s2 (put_instance prefix o.instance_name s1)
    ∙ put_then prefix _ _ s2 s3 (put_server_cert prefix o.server_cert_path s2)
    ∙ put_then prefix _ _ s3 s4 (put_client_key prefix o.client_key_path s3)
    ∙ put_then prefix _ _ s4 s5 (put_client_cert prefix o.client_cert_path s4)
    ∙ put_then prefix _ _ s5 s6 (put_access_token prefix o.access_token_path s5)
    ∙ put_then prefix _ _ s6 s7 (put_reload prefix o.token_reload_interval s6)
    ∙ put_then prefix _ _ s7 s8 (put_limit prefix o.retry_limit s7)
    ∙ put_then prefix _ _ s8 s9 (put_delay prefix o.retry_delay s8)
    ∙ put_then prefix _ _ s9 s10 (put_google prefix o.use_googleapi_auth s9 h)
    ∙ put_policy prefix o.load_balancing_policy s10
