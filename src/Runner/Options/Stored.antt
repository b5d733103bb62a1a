-- ===== src/Runner/Options/Stored.antt =====
-- The options of the runner whose value is stored as it is, and how they are told from those of a
-- connection.
use buildbox_common.Prelude.{
  ℕ, ◌≡◌, refl, Bool, true, false, List, [], ◌∷◌, ◌++◌, Option, none, some, if◌then◌else◌, ◌==◌,
  arith, Text, text_eq, codes,
}
use buildbox_common.Connection.{
  ConnectionOptions, strip, cut_assign, set_key, parse_rest, parse_arg,
}
use buildbox_common.Runner.{Runner}

-- The options whose value is stored as it is.
pub data Stored : Type 0 where
  input_path output_path stage_path stdout_path stderr_path : Stored

abbrev pub key_of : Stored → Text
key_of input_path = codes "action"
key_of output_path = codes "action-result"
key_of stage_path = codes "workspace-path"
key_of stdout_path = codes "stdout-file"
key_of stderr_path = codes "stderr-file"

abbrev pub field_of : Stored → Runner → Text
field_of input_path r = r.d_input_path
field_of output_path r = r.d_output_path
field_of stage_path r = r.d_stage_path
field_of stdout_path r = r.d_standard_outputs_capture_config.stdout_file_path
field_of stderr_path r = r.d_standard_outputs_capture_config.stderr_file_path

abbrev pub or_old : Text → Option Text → Text
or_old old (some value) = value
or_old old none = old

-- What follows `--`, the name of the option and `=`, or else the old value.
abbrev pub given_or : Stored → Text → Text → Text
given_or f old arg = or_old old (strip (codes "--" ++ (key_of f ++ codes "=")) arg)

-- The last value that is given.
abbrev pub last_given : Stored → Text → List Text → Text
last_given f old [] = old
last_given f old (arg ∷ rest) = last_given f (given_or f old arg) rest

-- The value of an assignment to `key`.
abbrev pub matching : Text → Text × Option Text → Option Text
matching key (k, none) = none
matching key (k, some v) = if text_eq k key then some v else none

abbrev pub Plain : Text → Type 0
Plain [] = Unit
Plain (c ∷ key) = ((c == b'=') ≡ false) × Plain key

pub matching-nil : (c : ℕ) (k : Text) (m : Option Text) → matching [] (c ∷ k, m) ≡ none
unfolding text_eq
matching-nil c k none = refl
matching-nil c k (some v) = refl

pub matching-cons :
    (x c : ℕ) (key k : Text) (m : Option Text)
    → matching (x ∷ key) (c ∷ k, m) ≡ (if x == c then matching key (k, m) else none)
unfolding text_eq
matching-cons x c key k none = ground arith
matching-cons x c key k (some v) = ground arith

pub strip-matching :
    (key arg : Text) → Plain key → strip (key ++ codes "=") arg ≡ matching key (cut_assign arg)
unfolding strip cut_assign text_eq
strip-matching [] [] h = refl
strip-matching [] (c ∷ arg) h = ground (arith, matching-nil c (cut_assign arg).0 (cut_assign arg).1)
strip-matching (x ∷ key) [] h = refl
strip-matching (x ∷ key) (c ∷ arg) h =
    ground (
      arith,
      strip-matching key arg h.1,
      matching-cons x c key (cut_assign arg).0 (cut_assign arg).1,
    )

pub Plain-key : (f : Stored) → Plain (key_of f)
Plain-key input_path = ground arith
Plain-key output_path = ground arith
Plain-key stage_path = ground arith
Plain-key stdout_path = ground arith
Plain-key stderr_path = ground arith

abbrev pub and_strip : Text → Option Text → Option Text
and_strip q none = none
and_strip q (some rest) = strip q rest

pub strip-append : (p q arg : Text) → strip (p ++ q) arg ≡ and_strip q (strip p arg)
unfolding strip
strip-append [] q arg = refl
strip-append (x ∷ p) q [] = refl
strip-append (x ∷ p) q (c ∷ arg) = ground (arith, strip-append p q arg)

-- `parseArg` of `ConnectionOptions` with no prefix, by what follows the dashes.
abbrev pub remote_named : ConnectionOptions → Text → Text × Option Text → Bool × ConnectionOptions
remote_named o arg (key, some v) = set_key o key v
remote_named o arg (key, none) =
    if text_eq arg (codes "googleapi-auth")
    then (true, record o { use_googleapi_auth = true })
    else (false, o)

abbrev pub remote_option : ConnectionOptions → Option Text → Bool × ConnectionOptions
remote_option o none = (false, o)
remote_option o (some arg) = parse_rest o arg

pub parse_rest-named :
    (o : ConnectionOptions) (arg : Text) → parse_rest o arg ≡ remote_named o arg (cut_assign arg)
unfolding parse_rest
parse_rest-named o arg = go (cut_assign arg)
  where
    go :
        (x : Text × Option Text)
        → (elim x.1 [
          | some v ↦ set_key o x.0 v
          | none ↦
              if text_eq arg (codes "googleapi-auth")
              then (true, record o { use_googleapi_auth = true })
              else (false, o)
        ])
          ≡ remote_named o arg x
    go (key, some v) = refl
    go (key, none) = refl

pub parse_arg-remote :
    (o : ConnectionOptions) (arg : Text)
    → parse_arg o [] arg ≡ remote_option o (strip (codes "--") arg)
unfolding parse_arg strip
parse_arg-remote o arg = go (strip (codes "--") arg)
  where
    go :
        (t : Option Text)
        → (elim t [
          | none ↦ (false, o)
          | some named ↦ elim (strip [] named) [ none ↦ (false, o) | some rest ↦ parse_rest o rest ]
        ])
          ≡ remote_option o t
    go none = refl
    go (some named) = refl

pub set_key-own :
    (f : Stored) (o : ConnectionOptions) (v : Text) → set_key o (key_of f) v ≡ (false, o)
unfolding set_key text_eq
set_key-own input_path o v = refl
set_key-own output_path o v = refl
set_key-own stage_path o v = refl
set_key-own stdout_path o v = refl
set_key-own stderr_path o v = refl

pub field-remote :
    (f : Stored) (r : Runner) (o : ConnectionOptions)
    → field_of f (record r { d_cas_remote = o }) ≡ field_of f r
field-remote input_path r o = refl
field-remote output_path r o = refl
field-remote stage_path r o = refl
field-remote stdout_path r o = refl
field-remote stderr_path r o = refl
