-- ===== src/CommandLine/Stable.antt =====
-- What holds of the object after each option holds after `parseOptions`.
use buildbox_common.Prelude.{
  ◌≡◌, refl, inl, inr, List, [], ◌∷◌, Option, none, some, Text, Bool-cases,
}
use buildbox_common.Connection.{cut_assign}
use buildbox_common.CommandLine.Types.{
  Doubles, ArgumentSpec, ArgumentValue, ArgumentMetaData, CommandLine, has_argument,
}
use buildbox_common.CommandLine.Values.{Built, built, refused, throws, build_argument_value}
use buildbox_common.Prelude.Maps.{map_emplace}
use buildbox_common.CommandLine.Options.{
  Form, undefined_form, short_form, positional_form, long_form, form_of, find_option_spec, Round,
  failed, threw, undefined, stopped, after_one, after_two, store_value, read_value, is_option,
  read_found, read_option, parse_round, Outcome, finished, threw_error, undefined_read,
  parse_options, after_round, ready_for_positionals, round_of,
}
use buildbox_common.CommandLine.Kept.{Kept, AfterBuilt, build-Kept}

module _ (D : Doubles) where
  abbrev pub AfterRound : (CommandLine D → Type 0) → Round D → Type 0
  AfterRound P failed = Unit
  AfterRound P threw = Unit
  AfterRound P undefined = Unit
  AfterRound P stopped = Unit
  AfterRound P (after_one cl) = P cl
  AfterRound P (after_two cl) = P cl

  abbrev pub AfterOutcome : (CommandLine D → Type 0) → Outcome D → Type 0
  AfterOutcome P (finished result cl) = P cl
  AfterOutcome P threw_error = Unit
  AfterOutcome P undefined_read = Unit

  -- What storing a value leaves.
  abbrev stored : Text → ArgumentSpec D → ArgumentValue D → CommandLine D → CommandLine D
  stored name s value cl = record cl {
    parsed_args =
        map_emplace cl.parsed_args name (record { argument_value = value; argument_spec = s });
  }

  -- What a property of the object needs to hold after each option.
  pub record Stable (P : CommandLine D → Type 0) : Type 0 where
    pub build :
        (name : Text) (s : ArgumentSpec D) (cl cl' : CommandLine D)
        → find_option_spec D cl.spec name ≡ some s
        → Kept D s cl cl'
        → P cl
        → P cl'
    pub store :
        (name : Text) (m : ArgumentMetaData D) (cl : CommandLine D)
        → P cl
        → P (record cl { parsed_args = map_emplace cl.parsed_args name m })
    pub set_args : (args : List Text) (cl : CommandLine D) → P cl → P (record cl { args = args })

  module _ (P : CommandLine D → Type 0) (stable : Stable P) where
    store_one-AfterRound :
        (name : Text) (s : ArgumentSpec D) (cl : CommandLine D) (b : Built D)
        → find_option_spec D cl.spec name ≡ some s
        → P cl
        → AfterBuilt D (Kept D s cl) b
        → AfterRound P (store_value D after_one name s b)
          × AfterRound P (store_value D after_two name s b)
    unfolding store_value
    store_one-AfterRound name s cl (built value cl') e h k =
        let kept = stable.store name _ cl' (stable.build name s cl cl' e k h) in (kept, kept)
    store_one-AfterRound name s cl refused e h k = (tt, tt)
    store_one-AfterRound name s cl throws e h k = (tt, tt)

    build-AfterRound :
        (name text : Text) (s : ArgumentSpec D) (cl : CommandLine D)
        → find_option_spec D cl.spec name ≡ some s
        → P cl
        → AfterRound P (store_value D after_one name s (build_argument_value D text s cl))
          × AfterRound P (store_value D after_two name s (build_argument_value D text s cl))
    build-AfterRound name text s cl e h =
        store_one-AfterRound name s cl (build_argument_value D text s cl) e h
          (build-Kept D text s cl)

    read_value-AfterRound :
        (name : Text) (s : ArgumentSpec D) (assigned next : Option Text) (cl : CommandLine D)
        → find_option_spec D cl.spec name ≡ some s
        → P cl
        → AfterRound P (read_value D name s assigned next cl)
    unfolding read_value
    read_value-AfterRound name s (some value) next cl e h = (build-AfterRound name value s cl e h).0
    read_value-AfterRound name s none none cl e h = elim (Bool-cases (has_argument D s)) [
      | inl a ↦ rw a tt
      | inr a ↦ rw a (build-AfterRound name [] s cl e h).0
    ]
    read_value-AfterRound name s none (some next) cl e h = elim (Bool-cases (has_argument D s)) [
      | inl a ↦ elim (Bool-cases (is_option D next)) [
        | inl o ↦ rw (a, o) tt
        | inr o ↦ rw (a, o) (build-AfterRound name next s cl e h).1
      ]
      | inr a ↦ rw a (build-AfterRound name [] s cl e h).0
    ]

    read_found-AfterRound :
        (name : Text) (found : Option (ArgumentSpec D)) (assigned next : Option Text)
        (cl : CommandLine D)
        → find_option_spec D cl.spec name ≡ found
        → P cl
        → AfterRound P (read_found D name found assigned next cl)
    unfolding read_found
    read_found-AfterRound name none assigned next cl e h = tt
    read_found-AfterRound name (some s) assigned next cl e h =
        read_value-AfterRound name s assigned next cl e h

    read_option-AfterRound :
        (text : Text) (next : Option Text) (cl : CommandLine D)
        → P cl
        → AfterRound P (read_option D text next cl)
    unfolding read_option
    read_option-AfterRound text next cl h =
        let (name, assigned) = cut_assign text in
        read_found-AfterRound name (find_option_spec D cl.spec name) assigned next cl refl h

    round-AfterRound :
        (form : Form) (arg : Text) (next : Option Text) (cl : CommandLine D)
        → P cl
        → AfterRound P (round_of D form arg next cl)
    unfolding round_of
    round-AfterRound undefined_form arg next cl h = tt
    round-AfterRound short_form arg next cl h = tt
    round-AfterRound positional_form arg next cl h =
        elim (Bool-cases (ready_for_positionals D cl arg)) [ inl e ↦ rw e tt | inr e ↦ rw e tt ]
    round-AfterRound (long_form text) arg next cl h = read_option-AfterRound text next cl h

    parse_round-AfterRound :
        (arg : Text) (next : Option Text) (cl : CommandLine D)
        → P cl
        → AfterRound P (parse_round D arg next cl)
    unfolding parse_round
    parse_round-AfterRound arg next cl h = round-AfterRound (form_of arg) arg next cl h

    after_round-AfterOutcome :
        (args : List Text) (cl : CommandLine D) (one two : CommandLine D → Outcome D) (r : Round D)
        → P cl
        → ((cl' : CommandLine D) → P cl' → AfterOutcome P (one cl'))
        → ((cl' : CommandLine D) → P cl' → AfterOutcome P (two cl'))
        → AfterRound P r
        → AfterOutcome P (after_round D args cl one two r)
    unfolding after_round
    after_round-AfterOutcome args cl one two failed h p q k = h
    after_round-AfterOutcome args cl one two threw h p q k = tt
    after_round-AfterOutcome args cl one two undefined h p q k = tt
    after_round-AfterOutcome args cl one two stopped h p q k = stable.set_args args cl h
    after_round-AfterOutcome args cl one two (after_one cl') h p q k = p cl' k
    after_round-AfterOutcome args cl one two (after_two cl') h p q k = q cl' k

    -- What is stable holds of the object after `parseOptions`, if it did before.
    pub parse_options-AfterOutcome :
        (args : List Text) (cl : CommandLine D) → P cl → AfterOutcome P (parse_options D args cl)
    unfolding parse_options
    parse_options-AfterOutcome [] cl h = stable.set_args [] cl h
    parse_options-AfterOutcome (arg ∷ []) cl h =
        after_round-AfterOutcome (arg ∷ []) cl (parse_options D []) (parse_options D []) _ h
          (parse_options-AfterOutcome []) (parse_options-AfterOutcome [])
          (parse_round-AfterRound arg none cl h)
    parse_options-AfterOutcome (arg ∷ next ∷ rest) cl h =
        after_round-AfterOutcome (arg ∷ next ∷ rest) cl (parse_options D (next ∷ rest))
          (parse_options D rest) _ h (parse_options-AfterOutcome (next ∷ rest))
          (parse_options-AfterOutcome rest) (parse_round-AfterRound arg (some next) cl h)
