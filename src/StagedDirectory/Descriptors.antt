-- ===== src/StagedDirectory/Descriptors.antt =====
-- The file descriptors that `openDirectoryInInputRoot` leaves open.
use mathlib.Core.List.{Memᴰ}
use mathlib.Core.List.Memᴰ
use buildbox_common.Prelude.{
  ℕ, ◌≡◌, ◌≢◌, refl, sym, ap, subst, ◌∙◌, ◌⊎◌, inl, inr, true, false, List, [], ◌∷◌, arith, ◌==◌,
  if◌then◌else◌, Text,
}
use buildbox_common.StagedDirectory.Open.{
  components, Opener, close_unless_root, after_open, open_components, open_directory_in_input_root,
}

-- The table of the open descriptors without one of them.
unfoldable pub remove : ℕ → List ℕ → List ℕ
remove fd [] = []
remove fd (x ∷ xs) = let rest = remove fd xs in if x == fd then xs else x ∷ rest

remove-second : (new fd : ℕ) (xs : List ℕ) → new ≢ fd → remove fd (new ∷ fd ∷ xs) ≡ new ∷ xs
unfolding remove
remove-second new fd xs h = ground arith

outside-apart : {a b : ℕ} {xs : List ℕ} → Memᴰ a xs → ¬ Memᴰ b xs → b ≢ a
outside-apart m h e = h (Memᴰ.cast e m)

module _ (O : Opener) where
  -- The open descriptors, the last opened first. A call that opens gives a descriptor that was not open;
  -- closing one that is open takes it away. Nothing is said of closing another.
  pub record IsTable (table : O.World → List ℕ) : Type 0 where
    pub opens :
        (at new : ℕ) (name : Text) (w v : O.World)
        → O.open_directory_at at name w ≡ (inr new, v)
        → (table v ≡ new ∷ table w) × (¬ Memᴰ new (table w))
    pub closes :
        (fd : ℕ) (w : O.World) → Memᴰ fd (table w) → table (O.close fd w) ≡ remove fd (table w)

  module _ (root : ℕ) (table : O.World → List ℕ) (C : IsTable table) where
    -- Two descriptors more than before: `fd`, and one that nothing refers to.
    abbrev pub Leaks : ℕ → List ℕ → List ℕ → Type 0
    Leaks fd before after =
        (lost : ℕ) × (lost ≢ fd) × (¬ Memᴰ lost before) × (after ≡ fd ∷ lost ∷ before)

    -- What is open after `fd` was returned for the components of a path.
    abbrev pub Opened : List Text → ℕ → List ℕ → List ℕ → Type 0
    Opened [] fd before after = after ≡ before
    Opened (name ∷ []) fd before after = after ≡ fd ∷ before
    Opened (name ∷ next ∷ rest) fd before after = Leaks fd before after

    -- A step that opened a descriptor.
    opened_step :
        (go_on : ℕ → O.World → (ℕ ⊎ ℕ) × O.World) (x : (ℕ ⊎ ℕ) × O.World) (fd : ℕ) (v : O.World)
        → after_open O go_on x ≡ (inr fd, v)
        → (new : ℕ) × (u : O.World) × (x ≡ (inr new, u)) × (go_on new u ≡ (inr fd, v))
    opened_step go_on (inl errno, u) fd v e = cc
    opened_step go_on (inr new, u) fd v e = (new, u, refl, e)

    -- The directory above is closed, unless it is the root.
    closed_above :
        (current new : ℕ) (before : List ℕ) (u : O.World)
        → current ≢ root
        → new ≢ current
        → table u ≡ new ∷ current ∷ before
        → table (close_unless_root O root current u) ≡ new ∷ before
    closed_above current new before u ne ne' e =
        let other : (current == root) ≡ false = ground arith in
        let here : Memᴰ current (table u) =
          subst (Memᴰ current) (sym e) (Memᴰ.tail (Memᴰ.head refl)) in
        rw other
          (C.closes current u here ∙ (ap (remove current) e ∙ remove-second new current before ne'))

    below-Leaks :
        (current : ℕ) (name : Text) (rest : List Text) (before : List ℕ) (w v : O.World) (fd : ℕ)
        → Memᴰ root before
        → ¬ Memᴰ current before
        → table w ≡ current ∷ before
        → open_components O root current (name ∷ rest) w ≡ (inr fd, v)
        → Leaks fd before (table v)
    unfolding open_components
    below-Leaks current name [] before w v fd at_root new_one t e =
        let (grown, fresh) = C.opens current fd name w v e in
        let apart : fd ≢ current =
          outside-apart (subst (Memᴰ current) (sym t) (Memᴰ.head refl)) fresh in
        (current, λ same. apart (sym same), new_one, grown ∙ ap (λ l. fd ∷ l) t)
    below-Leaks current name (next ∷ rest) before w v fd at_root new_one t e =
        let (new, u, step, e') = opened_step _ (O.open_directory_at current name w) fd v e in
        let (grown, fresh) = C.opens current new name w u step in
        let fresh' : ¬ Memᴰ new (current ∷ before) = subst (λ l. ¬ Memᴰ new l) t fresh in
        let closed : table (close_unless_root O root current u) ≡ new ∷ before =
          closed_above current new before u (outside-apart at_root new_one)
            (outside-apart (Memᴰ.head refl) fresh') (grown ∙ ap (λ l. new ∷ l) t) in
        below-Leaks new next rest before (close_unless_root O root current u) v fd at_root
          (λ m. fresh' (Memᴰ.tail m)) closed e'

    root-Opened :
        (names : List Text) (w v : O.World) (fd : ℕ)
        → Memᴰ root (table w)
        → open_components O root root names w ≡ (inr fd, v)
        → Opened names fd (table w) (table v)
    unfolding open_components
    root-Opened [] w v fd at_root e = ap (λ x. table x.1) (sym e)
    root-Opened (name ∷ []) w v fd at_root e = (C.opens root fd name w v e).0
    root-Opened (name ∷ next ∷ rest) w v fd at_root e =
        let (new, u, step, e') = opened_step _ (O.open_directory_at root name w) fd v e in
        let (grown, fresh) = C.opens root new name w u step in
        let same : (root == root) ≡ true = ground arith in
        below-Leaks new next rest (table w) (close_unless_root O root root u) v fd at_root fresh
          (rw same grown) e'

    -- When `openDirectoryInInputRoot` returns a descriptor, then for a path of one component just that
    -- descriptor is open besides those that were, and for a path of two or more so is one other, which
    -- was not open before and is not returned. The root was open, each call that opens gives a descriptor
    -- that was not open, and closing an open one takes it out of the table.
    pub open_directory_in_input_root-added :
        (path : Text) (fd : ℕ) (w v : O.World)
        → Memᴰ root (table w)
        → open_directory_in_input_root O root path w ≡ (inr fd, v)
        → Opened (components path) fd (table w) (table v)
    unfolding open_directory_in_input_root
    open_directory_in_input_root-added path fd w v at_root e =
        root-Opened (components path) w v fd at_root e
