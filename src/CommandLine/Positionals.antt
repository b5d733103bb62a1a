-- ===== src/CommandLine/Positionals.antt =====
-- What holds of the object through `parsePositionals`.
use buildbox_common.Prelude.{
  ◌≡◌, refl, ap, sym, ◌∙◌, inl, inr, true, false, List, [], ◌∷◌, Option, none, some, arith, Text,
  text_eq, Bool-cases, ltb, length,
}
use buildbox_common.CommandLine.Types.{Doubles, ArgumentSpec, CommandLine}
use buildbox_common.CommandLine.Values.{Built, built, refused, throws}
use buildbox_common.CommandLine.Options.{Outcome, finished, threw_error, undefined_read}
use buildbox_common.CommandLine.Parse.{
  find_next_positional, positional_loop, after_built, bind_positional, parse_positionals,
  count_required,
}
use buildbox_common.CommandLine.Kept.{Kept, AfterBuilt, build-Kept}

module _ (D : Doubles) where
  -- What holds after success.
  abbrev pub Success : (CommandLine D → Type 0) → Outcome D → Type 0
  Success P (finished true cl) = P cl
  Success P (finished false cl) = Unit
  Success P threw_error = Unit
  Success P undefined_read = Unit

  pub find_next_positional-name :
      (specs : List (ArgumentSpec D)) (s : ArgumentSpec D) (more : List (ArgumentSpec D))
      → find_next_positional D specs ≡ some (s, more)
      → text_eq s.name [] ≡ true
  unfolding find_next_positional
  find_next_positional-name [] s more h = absurd (ground arith)
  find_next_positional-name (x ∷ rest) s more h = elim (Bool-cases (text_eq x.name [])) [
    | inl e ↦
        let same : x ≡ s = ground arith in
        ap (λ (y : ArgumentSpec D). text_eq y.name []) (sym same) ∙ e
    | inr e ↦ find_next_positional-name rest s more (ground arith)
  ]

  -- What a property of the object needs to hold after each positional argument.
  pub record Lasting (P : CommandLine D → Type 0) : Type 0 where
    pub build :
        (s : ArgumentSpec D) (cl cl' : CommandLine D)
        → text_eq s.name [] ≡ true
        → Kept D s cl cl'
        → P cl
        → P cl'
    pub set_specs :
        (more : List (ArgumentSpec D)) (cl : CommandLine D)
        → P cl
        → P (record cl { positional_specs = more })
    pub set_args : (args : List Text) (cl : CommandLine D) → P cl → P (record cl { args = args })

  module _ (P : CommandLine D → Type 0) (lasting : Lasting P) where
    built-Success :
        (next : CommandLine D → Outcome D) (s : ArgumentSpec D) (cl : CommandLine D) (b : Built D)
        → text_eq s.name [] ≡ true
        → ((cl' : CommandLine D) → P cl' → Success P (next cl'))
        → P cl
        → AfterBuilt D (Kept D s cl) b
        → Success P (after_built D next cl b)
    unfolding after_built
    built-Success next s cl (built value cl') e h p k = h cl' (lasting.build s cl cl' e k p)
    built-Success next s cl refused e h p k = tt
    built-Success next s cl throws e h p k = tt

    bind-Success :
        (next : CommandLine D → Outcome D) (arg : Text) (cl : CommandLine D)
        (found : Option (ArgumentSpec D × List (ArgumentSpec D)))
        → find_next_positional D cl.positional_specs ≡ found
        → ((cl' : CommandLine D) → P cl' → Success P (next cl'))
        → P cl
        → Success P (bind_positional D next arg cl found)
    unfolding bind_positional
    bind-Success next arg cl none e h p = h _ (lasting.set_specs [] cl p)
    bind-Success next arg cl (some (s, more)) e h p =
        built-Success next s (record cl { positional_specs = more }) _
          (find_next_positional-name cl.positional_specs s more e) h (lasting.set_specs more cl p)
          (build-Kept D arg s (record cl { positional_specs = more }))

    positional-Success :
        (args : List Text) (cl : CommandLine D) → P cl → Success P (positional_loop D args cl)
    unfolding positional_loop
    positional-Success [] cl p = lasting.set_args [] cl p
    positional-Success (arg ∷ rest) cl p =
        bind-Success (positional_loop D rest) arg cl _ refl (λ cl' q. positional-Success rest cl' q)
          p

    pub positionals-Success : (cl : CommandLine D) → P cl → Success P (parse_positionals D cl)
    unfolding parse_positionals
    positionals-Success cl p = elim (Bool-cases (ltb (length cl.args) (count_required D cl.spec))) [
      | inl e ↦ rw e tt
      | inr e ↦ rw e (positional-Success cl.args cl p)
    ]
