-- ===== src/CommandLine/Grown.antt =====
-- What `parse` keeps of the object and adds to it, and what it does for the options with a default.
use buildbox_common.Prelude.{
  ◌≡◌, refl, subst, ◌∙◌, inl, inr, ◌⊎◌, Bool, true, false, ◌&&◌, ◌||◌, not, List, [], ◌∷◌, some,
  arith, Text, text_eq, text_eq_refl, Bool-cases, Option-cases, ◌==◌,
}
use buildbox_common.CommandLine.Types.{
  Doubles, ArgumentSpec, ArgumentMetaData, CommandLine, has_value, is_required, default_type,
}
use buildbox_common.Prelude.Maps.{map_find, map_emplace}
use buildbox_common.CommandLine.Options.{exists_arg}
use buildbox_common.CommandLine.Parse.{
  value_of_default, put_default, apply_default, apply_default_values, type_code,
}
use buildbox_common.CommandLine.Entries.{find-emplace, find-update}
use buildbox_common.CommandLine.Kept.{Kept}
use buildbox_common.CommandLine.Stable.{Stable}

module _ (D : Doubles) where
  -- All that exists in one object exists in another, of the same specification.
  pub record Grown (cl cl' : CommandLine D) : Type 0 where
    pub spec : cl'.spec ≡ cl.spec
    pub entries : (n : Text) → exists_arg D cl n ≡ true → exists_arg D cl' n ≡ true

  pub Grown-self : (cl : CommandLine D) → Grown cl cl
  Grown-self cl = record { spec = refl; entries = λ n h. h }

  pub Grown-then : (a b c : CommandLine D) → Grown a b → Grown b c → Grown a c
  Grown-then a b c g h = record {
    spec = h.spec ∙ g.spec;
    entries = λ n e. h.entries n (g.entries n e);
  }

  Grown-emplace :
      (cl : CommandLine D) (name : Text) (m : ArgumentMetaData D)
      → Grown cl (record cl { parsed_args = map_emplace cl.parsed_args name m })
  Grown-emplace cl name m = record {
    spec = refl;
    entries = λ n e. ground (arith, find-emplace cl.parsed_args name m n);
  }

  pub Grown-Kept : (s : ArgumentSpec D) (cl cl' : CommandLine D) → Kept D s cl cl' → Grown cl cl'
  Grown-Kept s cl cl' k = record {
    spec = k.spec;
    entries = λ n e. elim (k.entries) [
      | inl same ↦ rw same e
      | inr (f, array, changes) ↦ elim (Option-cases (map_find cl.parsed_args n)) [
        | inl missing ↦ ground (arith, find-update cl.parsed_args s.name f n)
        | inr (m, found) ↦ ground (arith, find-update cl.parsed_args s.name f n)
      ]
    ];
  }

  pub Grown-Stable : (start : CommandLine D) → Stable D (Grown start)
  Grown-Stable start = record {
    build = λ name s cl cl' e k h. Grown-then start cl cl' h (Grown-Kept s cl cl' k);
    store = λ name m cl h. Grown-then start cl _ h (Grown-emplace cl name m);
    set_args = λ args cl h. record { spec = h.spec; entries = h.entries };
  }

  -- A default is not on a required option, and is there.
  abbrev pub default_ok : CommandLine D → ArgumentSpec D → Bool
  default_ok cl s =
      text_eq s.name []
      || (not (has_value D s.default_value) || (exists_arg D cl s.name && not (is_required D s)))

  kept-default_ok :
      (cl cl' : CommandLine D) (s : ArgumentSpec D)
      → cl ≡ cl'
      → default_ok cl s ≡ true
      → Grown cl cl' × (default_ok cl' s ≡ true)
  kept-default_ok cl cl' s e h =
      subst (λ c. Grown cl c × (default_ok c s ≡ true)) e (Grown-self cl, h)

  emplace-default_ok :
      (cl cl' : CommandLine D) (s : ArgumentSpec D) (m : ArgumentMetaData D)
      → record cl { parsed_args = map_emplace cl.parsed_args s.name m } ≡ cl'
      → is_required D s ≡ false
      → Grown cl cl' × (default_ok cl' s ≡ true)
  emplace-default_ok cl cl' s m e h =
      subst (λ c. Grown cl c × (default_ok c s ≡ true)) e
        (
          Grown-emplace cl s.name m,
          ground (arith, find-emplace cl.parsed_args s.name m s.name, text_eq_refl s.name),
        )

  put-default :
      (cl cl' : CommandLine D) (s : ArgumentSpec D) (m : ArgumentMetaData D)
      → put_default D cl s ≡ some cl'
      → m ≡ record { argument_value = value_of_default D s.default_value; argument_spec = s }
      → record cl { parsed_args = map_emplace cl.parsed_args s.name m } ≡ cl'
  unfolding put_default
  put-default cl cl' s m h e =
      elim (Bool-cases
        (type_code s.type_info.data_type == type_code (default_type D s.default_value))) [
          | inl same ↦ ground arith
          | inr other ↦ absurd (ground arith)
        ]

  -- A round of `applyDefaultValues` leaves the object, or stores the default of an optional argument.
  pub apply_default-cases :
      (cl cl' : CommandLine D) (s : ArgumentSpec D)
      → apply_default D cl s ≡ some cl'
      → ((cl ≡ cl') × (default_ok cl s ≡ true))
        ⊎ ((m : ArgumentMetaData D) × (record cl {
          parsed_args = map_emplace cl.parsed_args s.name m;
        }
              ≡ cl')
            × (is_required D s ≡ false))
  unfolding apply_default
  apply_default-cases cl cl' s h = elim (Bool-cases (text_eq s.name [])) [
    | inl a ↦ inl (ground arith, ground arith)
    | inr a ↦ elim (Bool-cases (has_value D s.default_value)) [
      | inr b ↦ inl (ground arith, ground arith)
      | inl b ↦ elim (Bool-cases (is_required D s)) [
        | inl c ↦ absurd (ground arith)
        | inr c ↦ elim (Bool-cases (exists_arg D cl s.name)) [
          | inl d ↦ inl (ground arith, ground arith)
          | inr d ↦
              let m : ArgumentMetaData D = record {
                argument_value = value_of_default D s.default_value;
                argument_spec = s;
              } in
              inr (m, put-default cl cl' s m (ground arith) refl, c)
        ]
      ]
    ]
  ]

  apply_default-default_ok :
      (cl cl' : CommandLine D) (s : ArgumentSpec D)
      → apply_default D cl s ≡ some cl'
      → Grown cl cl' × (default_ok cl' s ≡ true)
  apply_default-default_ok cl cl' s h = elim (apply_default-cases cl cl' s h) [
    | inl (e, ok) ↦ kept-default_ok cl cl' s e ok
    | inr (m, e, c) ↦ emplace-default_ok cl cl' s m e c
  ]

  unfoldable pub all_ok : CommandLine D → List (ArgumentSpec D) → Bool
  all_ok cl [] = true
  all_ok cl (s ∷ rest) = default_ok cl s && all_ok cl rest

  default_ok-Grown :
      (cl cl' : CommandLine D) (s : ArgumentSpec D)
      → Grown cl cl'
      → default_ok cl s ≡ true
      → default_ok cl' s ≡ true
  default_ok-Grown cl cl' s g h = ground (arith, g.entries s.name)

  pub apply_default_values-all_ok :
      (specs : List (ArgumentSpec D)) (cl cl' : CommandLine D)
      → apply_default_values D specs cl ≡ some cl'
      → Grown cl cl' × (all_ok cl' specs ≡ true)
  unfolding apply_default_values all_ok
  apply_default_values-all_ok [] cl cl' h =
      let e : cl ≡ cl' = ground arith in (subst (Grown cl) e (Grown-self cl), refl)
  apply_default_values-all_ok (s ∷ rest) cl cl' h = elim (Option-cases (apply_default D cl s)) [
    | inl missing ↦ absurd (ground arith)
    | inr (next, e) ↦
        let first = apply_default-default_ok cl next s e in
        let more = apply_default_values-all_ok rest next cl' (ground arith) in
        (
          Grown-then cl next cl' first.0 more.0,
          ground (arith, more.1, default_ok-Grown next cl' s more.0 first.1),
        )
  ]
