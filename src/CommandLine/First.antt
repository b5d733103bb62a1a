-- ===== src/CommandLine/First.antt =====
-- Of an option that is given more than once, the container keeps the first value, except for arrays.
use buildbox_common.Prelude.{
  ◌≡◌, refl, ap, subst, ◌∙◌, sym, inl, inr, true, false, List, [], ◌∷◌, Option, none, some, arith,
  Text, text_eq, text_eq→eq, text_eq_refl, Option-cases, Bool-cases,
}
use buildbox_common.CommandLine.Types.{
  Doubles, string_type, ArgumentSpec, empty_value, ArgumentMetaData, CommandLine, bind_string,
}
use buildbox_common.CommandLine.Values.{built, bind, build_typed, build_argument_value}
use buildbox_common.Prelude.Maps.{map_find, map_emplace}
use buildbox_common.CommandLine.Options.{
  find_option_spec, after_one, store_value, Outcome, finished, threw_error, undefined_read,
  parse_options, validate_required_args,
}
use buildbox_common.CommandLine.Parse.{
  apply_default, apply_default_values, after_defaults, after_options, only_help, finish_parse,
  parse,
}
use buildbox_common.CommandLine.Getters.{get_string}
use buildbox_common.CommandLine.Entries.{find-emplace, find-update}
use buildbox_common.CommandLine.Kept.{is_array, Kept, bind-entries}
use buildbox_common.CommandLine.Stable.{Stable, AfterOutcome, parse_options-AfterOutcome}
use buildbox_common.CommandLine.Forms.{
  has_assign, long_option, round-long_option, parse_options-after_one, find_option_spec-name,
}
use buildbox_common.CommandLine.Grown.{apply_default-cases}
use buildbox_common.CommandLine.Positionals.{Success, Lasting, positionals-Success}

module _ (D : Doubles) where
  -- The object has an entry of that name.
  pub record Holds (specs : List (ArgumentSpec D)) (n : Text) (m : ArgumentMetaData D)
      (cl : CommandLine D) : Type 0 where
    pub spec : cl.spec ≡ specs
    pub entry : map_find cl.parsed_args n ≡ some m

  Holds-emplace :
      (specs : List (ArgumentSpec D)) (n : Text) (m : ArgumentMetaData D) (name : Text)
      (new : ArgumentMetaData D) (cl : CommandLine D)
      → Holds specs n m cl
      → Holds specs n m (record cl { parsed_args = map_emplace cl.parsed_args name new })
  Holds-emplace specs n m name new cl h = record {
    spec = h.spec;
    entry = ground (arith, h.entry, find-emplace cl.parsed_args name new n);
  }

  -- A conversion for another option, or for one that is no array.
  Holds-Kept :
      (specs : List (ArgumentSpec D)) (n : Text) (m : ArgumentMetaData D) (s : ArgumentSpec D)
      (cl cl' : CommandLine D)
      → (text_eq s.name n ≡ true → is_array s.type_info.data_type ≡ false)
      → Kept D s cl cl'
      → Holds specs n m cl
      → Holds specs n m cl'
  Holds-Kept specs n m s cl cl' other k h = record {
    spec = k.spec ∙ h.spec;
    entry = elim (k.entries) [
      | inl same ↦ ap (λ entries. map_find entries n) same ∙ h.entry
      | inr (f, array, changes) ↦
          ap (λ entries. map_find entries n) changes ∙ elim (Bool-cases (text_eq s.name n)) [
            | inl e ↦ absurd (ground (arith, other e))
            | inr e ↦ find-update cl.parsed_args s.name f n ∙ rw e (h.entry)
          ]
    ];
  }

  same_spec :
      (specs : List (ArgumentSpec D)) (n : Text) (s : ArgumentSpec D)
      → find_option_spec D specs n ≡ some s
      → (name : Text) (s' : ArgumentSpec D) → find_option_spec D specs name ≡ some s'
      → text_eq s'.name n ≡ true
      → s' ≡ s
  same_spec specs n s found name s' e same =
      let eq : name ≡ n =
        sym (find_option_spec-name D specs name s' e) ∙ text_eq→eq s'.name n same in
      let both : some s' ≡ some s = sym e ∙ ap (find_option_spec D specs) eq ∙ found in ground arith

  Holds-Stable :
      (specs : List (ArgumentSpec D)) (n : Text) (m : ArgumentMetaData D) (s : ArgumentSpec D)
      → find_option_spec D specs n ≡ some s
      → is_array s.type_info.data_type ≡ false
      → Stable D (Holds specs n m)
  Holds-Stable specs n m s found scalar = record {
    build = λ name s' cl cl' e k h.
        Holds-Kept specs n m s' cl cl'
          (λ same.
            let is =
              same_spec specs n s found name s'
                (ap (λ l. find_option_spec D l name) (sym h.spec) ∙ e) same in
            ap (λ (x : ArgumentSpec D). is_array x.type_info.data_type) is ∙ scalar)
          k h;
    store = λ name new cl h. Holds-emplace specs n m name new cl h;
    set_args = λ args cl h. record { spec = h.spec; entry = h.entry };
  }

  defaults-Holds :
      (left specs : List (ArgumentSpec D)) (n : Text) (m : ArgumentMetaData D)
      (cl cl' : CommandLine D)
      → apply_default_values D left cl ≡ some cl'
      → Holds specs n m cl
      → Holds specs n m cl'
  unfolding apply_default_values
  defaults-Holds [] specs n m cl cl' e h =
      let same : cl ≡ cl' = ground arith in subst (Holds specs n m) same h
  defaults-Holds (s ∷ left) specs n m cl cl' e h = elim (Option-cases (apply_default D cl s)) [
    | inl missing ↦ absurd (ground arith)
    | inr (next, is) ↦
        let first : Holds specs n m next = elim (apply_default-cases D cl next s is) [
          | inl (same, ok) ↦ subst (Holds specs n m) same h
          | inr (new, same, ok) ↦
              subst (Holds specs n m) same (Holds-emplace specs n m s.name new cl h)
        ] in
        defaults-Holds left specs n m next cl' (ground arith) first
  ]

  Holds-Lasting :
      (specs : List (ArgumentSpec D)) (n : Text) (m : ArgumentMetaData D)
      → text_eq [] n ≡ false
      → Lasting D (Holds specs n m)
  Holds-Lasting specs n m named = record {
    build = λ s cl cl' e k h.
        Holds-Kept specs n m s cl cl'
          (λ same. absurd (let empty = text_eq→eq s.name [] e in ground arith)) k h;
    set_specs = λ more cl h. record { spec = h.spec; entry = h.entry };
    set_args = λ args cl h. record { spec = h.spec; entry = h.entry };
  }

  finish-Success :
      (specs : List (ArgumentSpec D)) (n : Text) (m : ArgumentMetaData D) (cl : CommandLine D)
      → text_eq [] n ≡ false
      → Holds specs n m cl
      → Success D (Holds specs n m) (finish_parse D cl)
  unfolding finish_parse after_defaults
  finish-Success specs n m cl named h = elim (Bool-cases (only_help D cl)) [
    | inl e ↦ rw e h
    | inr e ↦ elim (Bool-cases (validate_required_args D cl cl.spec)) [
      | inl v ↦ rw (e, v) (go (apply_default_values D cl.spec cl) refl)
      | inr v ↦ rw (e, v) tt
    ]
  ]
    where
      go :
          (defaults : Option (CommandLine D))
          → apply_default_values D cl.spec cl ≡ defaults
          → Success D (Holds specs n m) (after_defaults D cl defaults)
      go none e = tt
      go (some cl') e =
          positionals-Success D (Holds specs n m) (Holds-Lasting specs n m named) cl'
            (defaults-Holds cl.spec specs n m cl cl' e h)

  options-Success :
      (specs : List (ArgumentSpec D)) (n : Text) (m : ArgumentMetaData D) (o : Outcome D)
      → text_eq [] n ≡ false
      → AfterOutcome D (Holds specs n m) o
      → Success D (Holds specs n m) (after_options D o)
  unfolding after_options
  options-Success specs n m (finished true cl) named h = finish-Success specs n m cl named h
  options-Success specs n m (finished false cl) named h = tt
  options-Success specs n m threw_error named h = tt
  options-Success specs n m undefined_read named h = tt

  -- What a string option that is new stores.
  build_string :
      (n v : Text) (s : ArgumentSpec D) (cl : CommandLine D)
      → s.type_info.data_type ≡ string_type
      → build_argument_value D v s cl
        ≡ built (record (empty_value D) { str_value = v }) (bind D s (bind_string v) cl)
  unfolding build_argument_value build_typed
  build_string n v s cl t = ap (λ type. build_typed D type v s cl) t

  -- When the first argument after the process's name gives a string option a value, as `--name=value`, that
  -- value is the one that `getString` returns when `parse` has returned true, whatever arguments follow,
  -- further values of that option among them. The name is not empty and has no equals sign, and the
  -- object had no value for it.
  pub parse-get_string :
      (process n v : Text) (rest : List Text) (s : ArgumentSpec D) (cl cl' : CommandLine D)
      → text_eq [] n ≡ false
      → has_assign n ≡ false
      → find_option_spec D cl.spec n ≡ some s
      → s.type_info.data_type ≡ string_type
      → map_find cl.parsed_args n ≡ none
      → parse D (process ∷ long_option n v ∷ rest) cl ≡ finished true cl'
      → get_string D cl' n ≡ some v
  unfolding parse get_string store_value
  parse-get_string process n v rest s cl cl' named a e t missing h =
      let start : CommandLine D = record cl { process_name = process } in
      let bound = bind D s (bind_string v) start in
      let facts = bind-entries D s (bind_string v) start in
      let m : ArgumentMetaData D = record {
        argument_value = record (empty_value D) { str_value = v };
        argument_spec = s;
      } in
      let next : CommandLine D = record bound { parsed_args = map_emplace bound.parsed_args n m } in
      let after : Outcome D → Type 0 = λ o. AfterOutcome D (Holds cl.spec n m) o in
      let first : Holds cl.spec n m next = record {
        spec = facts.0;
        entry = find-emplace bound.parsed_args n m n ∙ rw (text_eq_refl n, facts.1, missing);
      } in
      let reads = parse_options-after_one D (long_option n v) rest start next (λ arg.
        round-long_option D n v arg s start a e
        ∙ ap (store_value D after_one n s) (build_string n v s start t)) in
      let held =
        parse_options-AfterOutcome D (Holds cl.spec n m) (Holds-Stable cl.spec n m s e (rw t)) rest
          next first in
      let result =
        options-Success cl.spec n m (parse_options D (long_option n v ∷ rest) start) named
          (subst after (sym reads) held) in
      rw ((subst (Success D (Holds cl.spec n m)) h result).entry)
