-- ===== src/CommandLine/Bindings.antt =====
-- Which variables the positional arguments are written to.
use buildbox_common.Prelude.{
  ◌≡◌, refl, ap, ap₂, subst, ◌∙◌, sym, inl, inr, ◌⊎◌, true, false, List, [], ◌∷◌, ◌++◌, append-nil,
  append_assoc, Option, none, some, arith, Text, text_eq, Bool-cases, Option-cases, ltb, length,
  All, if◌then◌else◌, ℕ,
}
use buildbox_common.CommandLine.Types.{
  Doubles, string_type, ArgumentSpec, empty_value, CommandLine, bind_string, Bound,
}
use buildbox_common.CommandLine.Values.{built, bind, build_typed, build_argument_value}
use buildbox_common.CommandLine.Options.{Outcome, finished}
use buildbox_common.CommandLine.Parse.{
  find_next_positional, positional_loop, after_built, bind_positional, parse_positionals,
  count_required,
}

module _ (D : Doubles) where
  -- The specifications of positional arguments.
  unfoldable pub positionals : List (ArgumentSpec D) → List (ArgumentSpec D)
  positionals [] = []
  positionals (s ∷ rest) =
      let more = positionals rest in if text_eq s.name [] then s ∷ more else more

  abbrev write_of : Option ℕ → Text → List (ℕ × Bound D)
  write_of none arg = []
  write_of (some v) arg = (v, bind_string arg) ∷ []

  -- The arguments, each with the variable of its specification, as long as there are both.
  unfoldable pub bindings : List (ArgumentSpec D) → List Text → List (ℕ × Bound D)
  bindings [] args = []
  bindings (s ∷ specs) [] = []
  bindings (s ∷ specs) (arg ∷ args) = write_of s.type_info.variable arg ++ bindings specs args

  bindings-nil : (specs : List (ArgumentSpec D)) → bindings specs [] ≡ []
  unfolding bindings
  bindings-nil [] = refl
  bindings-nil (s ∷ specs) = refl

  abbrev Strings : List (ArgumentSpec D) → Type 0
  Strings specs = All (λ (s : ArgumentSpec D). s.type_info.data_type ≡ string_type) specs

  positionals-find :
      (specs : List (ArgumentSpec D))
      → ((find_next_positional D specs ≡ none) × (positionals specs ≡ []))
        ⊎ ((s : ArgumentSpec D) × (more : List (ArgumentSpec D)) × (find_next_positional D specs
              ≡ some (s, more))
            × (positionals specs ≡ s ∷ positionals more))
  unfolding find_next_positional positionals
  positionals-find [] = inl (refl, refl)
  positionals-find (x ∷ rest) = elim (Bool-cases (text_eq x.name [])) [
    | inl e ↦ inr (x, rest, rw e, rw e)
    | inr e ↦ elim (positionals-find rest) [
      | inl (f, p) ↦ inl (ground arith, ground arith)
      | inr (s, more, f, p) ↦ inr (s, more, ground arith, ground arith)
    ]
  ]

  bind-writes :
      (s : ArgumentSpec D) (arg : Text) (cl : CommandLine D)
      → ((bind D s (bind_string arg) cl).writes ≡ cl.writes ++ write_of s.type_info.variable arg)
        × ((bind D s (bind_string arg) cl).positional_specs ≡ cl.positional_specs)
  unfolding bind
  bind-writes s arg cl = elim (Option-cases (s.type_info.variable)) [
    | inl e ↦ rw e (sym (append-nil _), refl)
    | inr (v, e) ↦ rw e (refl, refl)
  ]

  build_string :
      (v : Text) (s : ArgumentSpec D) (cl : CommandLine D)
      → s.type_info.data_type ≡ string_type
      → build_argument_value D v s cl
        ≡ built (record (empty_value D) { str_value = v }) (bind D s (bind_string v) cl)
  unfolding build_argument_value build_typed
  build_string v s cl t = ap (λ type. build_typed D type v s cl) t

  -- What the loop ends with.
  abbrev Binds : List Text → CommandLine D → Outcome D → Type 0
  Binds args cl o =
      (cl' : CommandLine D) × (o ≡ finished true cl')
      × (cl'.writes ≡ cl.writes ++ bindings (positionals cl.positional_specs) args)

  bind_string_positional :
      (next : CommandLine D → Outcome D) (arg : Text) (s : ArgumentSpec D)
      (more : List (ArgumentSpec D)) (cl : CommandLine D)
      → s.type_info.data_type ≡ string_type
      → bind_positional D next arg cl (some (s, more))
        ≡ next (bind D s (bind_string arg) (record cl { positional_specs = more }))
  unfolding bind_positional after_built
  bind_string_positional next arg s more cl t =
      rw (build_string arg s (record cl { positional_specs = more }) t)

  loop-Binds :
      (args : List Text) (cl : CommandLine D)
      → Strings (positionals cl.positional_specs)
      → Binds args cl (positional_loop D args cl)
  unfolding positional_loop bindings positionals bind_positional
  loop-Binds [] cl h = (
    _,
    refl,
    sym (
        ap (λ l. cl.writes ++ l) (bindings-nil (positionals cl.positional_specs))
        ∙ append-nil cl.writes),
  )
  loop-Binds (arg ∷ rest) cl h = elim (positionals-find cl.positional_specs) [
    | inl (f, p) ↦
        let (last, done, writes) = loop-Binds rest (record cl { positional_specs = [] }) tt in
        (
          last,
          ap (bind_positional D (positional_loop D rest) arg cl) f ∙ done,
          writes ∙ ap (λ l. cl.writes ++ bindings l (arg ∷ rest)) (sym p),
        )
    | inr (s, more, f, p) ↦
        let h' : Strings (s ∷ positionals more) = subst Strings p h in
        let next = bind D s (bind_string arg) (record cl { positional_specs = more }) in
        let facts = bind-writes s arg (record cl { positional_specs = more }) in
        let (last, done, writes) =
          loop-Binds rest next (subst (λ specs. Strings (positionals specs)) (sym facts.1) h'.1) in
        (
          last,
          ap (bind_positional D (positional_loop D rest) arg cl) f
              ∙ bind_string_positional (positional_loop D rest) arg s more cl h'.0
              ∙ done,
          writes
              ∙ ap₂ (λ w l. w ++ bindings (positionals l) rest) facts.0 facts.1
              ∙ append_assoc cl.writes (write_of s.type_info.variable arg)
                  (bindings (positionals more) rest)
              ∙ ap (λ l. cl.writes ++ bindings l (arg ∷ rest)) (sym p),
        )
  ]

  -- The positional arguments are written, in order, to the variables of the specifications without a
  -- name, in their order, and further arguments are passed over: if those specifications are of texts
  -- and no fewer arguments are left than they require, `parsePositionals` returns true.
  pub parse_positionals-bindings :
      (cl : CommandLine D)
      → All
          (λ (s : ArgumentSpec D). s.type_info.data_type ≡ string_type)
          (positionals cl.positional_specs)
      → ltb (length cl.args) (count_required D cl.spec) ≡ false
      → (cl' : CommandLine D) × (parse_positionals D cl ≡ finished true cl')
        × (cl'.writes ≡ cl.writes ++ bindings (positionals cl.positional_specs) cl.args)
  unfolding parse_positionals
  parse_positionals-bindings cl h enough = rw enough (loop-Binds cl.args cl h)
