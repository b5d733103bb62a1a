-- ===== src/CommandLine/Arrays.antt =====
-- An option with an array of values takes all that it is given.
use buildbox_common.Prelude.{
  ◌≡◌, refl, ap, subst, ◌∙◌, sym, true, false, List, [], ◌∷◌, ◌++◌, append-nil, append_assoc, map,
  Option, none, some, Text, text_eq_refl,
}
use buildbox_common.CommandLine.Types.{
  Doubles, string_array, ArgumentSpec, ArgumentValue, empty_value, ArgumentMetaData, CommandLine,
  bind_element,
}
use buildbox_common.CommandLine.Values.{
  Built, built, bind, build_element, build_typed, build_argument_value, add_element,
}
use buildbox_common.Prelude.Maps.{map_find, map_emplace, map_update}
use buildbox_common.CommandLine.Options.{
  find_option_spec, after_one, store_value, finished, parse_options,
}
use buildbox_common.CommandLine.Getters.{get_vs_or}
use buildbox_common.CommandLine.Entries.{find-emplace, find-update}
use buildbox_common.CommandLine.Forms.{
  has_assign, long_option, round-long_option, parse_options-after_one, find_option_spec-name,
}
use buildbox_common.CommandLine.Kept.{bind-entries}

module _ (D : Doubles) where
  -- What storing a value leaves.
  abbrev stored : Text → ArgumentSpec D → ArgumentValue D → CommandLine D → CommandLine D
  stored name s value cl = record cl {
    parsed_args =
        map_emplace cl.parsed_args name (record { argument_value = value; argument_spec = s });
  }

  -- A round with an element.
  abbrev Appended : Text → Text → ArgumentSpec D → CommandLine D → Built D → Type 0
  Appended name v s cl b =
      (value : ArgumentValue D) × (cl' : CommandLine D) × (b ≡ built value cl')
      × (cl'.spec ≡ cl.spec)
      × (get_vs_or D (stored name s value cl') name [] ≡ get_vs_or D cl name [] ++ v ∷ [])

  get_vs-find :
      (cl : CommandLine D) (name : Text) (m : ArgumentMetaData D)
      → map_find cl.parsed_args name ≡ some m
      → get_vs_or D cl name [] ≡ m.argument_value.vs_value
  unfolding get_vs_or
  get_vs-find cl name m h = rw h

  get_vs-missing :
      (cl : CommandLine D) (name : Text)
      → map_find cl.parsed_args name ≡ none
      → get_vs_or D cl name [] ≡ []
  unfolding get_vs_or
  get_vs-missing cl name h = rw h

  new-Appended :
      (name v : Text) (s : ArgumentSpec D) (cl : CommandLine D)
      → map_find cl.parsed_args name ≡ none
      → Appended name v s cl (build_element D s cl v none)
  unfolding build_element
  new-Appended name v s cl e =
      let facts = bind-entries D s (bind_element v) cl in
      let value : ArgumentValue D = record (empty_value D) { vs_value = v ∷ [] } in
      let m : ArgumentMetaData D = record { argument_value = value; argument_spec = s } in
      (
        value,
        bind D s (bind_element v) cl,
        refl,
        facts.0,
        get_vs-find (stored name s value (bind D s (bind_element v) cl)) name m (
              find-emplace (bind D s (bind_element v) cl).parsed_args name m name
              ∙ rw (text_eq_refl name, facts.1, e))
            ∙ rw (get_vs-missing cl name e),
      )

  old-Appended :
      (name v : Text) (s : ArgumentSpec D) (cl : CommandLine D) (m : ArgumentMetaData D)
      → s.name ≡ name
      → map_find cl.parsed_args name ≡ some m
      → Appended name v s cl (build_element D s cl v (some m))
  unfolding build_element
  old-Appended name v s cl m n e =
      let more : CommandLine D = record cl {
        parsed_args = map_update cl.parsed_args s.name (add_element D v);
      } in
      let facts = bind-entries D s (bind_element v) more in
      let new : ArgumentMetaData D = record { argument_value = empty_value D; argument_spec = s } in
      (
        empty_value D,
        bind D s (bind_element v) more,
        refl,
        facts.0,
        get_vs-find (stored name s (empty_value D) (bind D s (bind_element v) more)) name
              (add_element D v m)
              (find-emplace (bind D s (bind_element v) more).parsed_args name new name
                ∙ cc (
                  text_eq_refl name,
                  ap (λ entries. map_find entries name) facts.1,
                  find-update cl.parsed_args s.name (add_element D v) name,
                ))
            ∙ ap (λ xs. xs ++ v ∷ []) (sym (get_vs-find cl name m e)),
      )

  build_array :
      (v : Text) (s : ArgumentSpec D) (cl : CommandLine D)
      → s.type_info.data_type ≡ string_array
      → build_argument_value D v s cl ≡ build_element D s cl v (map_find cl.parsed_args s.name)
  unfolding build_argument_value build_typed
  build_array v s cl t = ap (λ type. build_typed D type v s cl) t

  build-Appended :
      (name v : Text) (s : ArgumentSpec D) (cl : CommandLine D)
      → s.name ≡ name
      → s.type_info.data_type ≡ string_array
      → Appended name v s cl (build_argument_value D v s cl)
  build-Appended name v s cl n t =
      subst (Appended name v s cl)
        (sym (
          build_array v s cl t
          ∙ ap (λ key. build_element D s cl v (map_find cl.parsed_args key)) n))
        (go (map_find cl.parsed_args name) refl)
    where
      go :
          (found : Option (ArgumentMetaData D))
          → map_find cl.parsed_args name ≡ found
          → Appended name v s cl (build_element D s cl v found)
      go none e = new-Appended name v s cl e
      go (some m) e = old-Appended name v s cl m n e

  -- Where all arguments are of the form `--name=value` for one and the same option of strings, whose name
  -- has no equals sign, the values are appended to those that it has, in the order of the arguments, and
  -- `parseOptions` returns true.
  pub parse_options-get_vs :
      (name : Text) (s : ArgumentSpec D) (vs : List Text) (cl : CommandLine D)
      → has_assign name ≡ false
      → find_option_spec D cl.spec name ≡ some s
      → s.type_info.data_type ≡ string_array
      → (cl' : CommandLine D) × (parse_options D (map (long_option name) vs) cl ≡ finished true cl')
        × (get_vs_or D cl' name [] ≡ get_vs_or D cl name [] ++ vs)
  unfolding parse_options store_value get_vs_or
  parse_options-get_vs name s [] cl a e t = (_, refl, sym (append-nil _))
  parse_options-get_vs name s (v ∷ vs) cl a e t =
      let (value, cl', is, same, appended) =
        build-Appended name v s cl (find_option_spec-name D cl.spec name s e) t in
      let next = stored name s value cl' in
      let (last, done, all) =
        parse_options-get_vs name s vs next a (ap (λ specs. find_option_spec D specs name) same ∙ e)
          t in
      (
        last,
        parse_options-after_one D (long_option name v) (map (long_option name) vs) cl next (λ arg.
              round-long_option D name v arg s cl a e ∙ ap (store_value D after_one name s) is)
            ∙ done,
        all ∙ ap (λ xs. xs ++ vs) appended ∙ append_assoc (get_vs_or D cl name []) (v ∷ []) vs,
      )
