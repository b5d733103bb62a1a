-- ===== src/Directories/Made.antt =====
-- The directories that `createDirectory` makes.
use buildbox_common.Prelude.{
  ℕ, zero, suc, ◌≤◌, ◌≡◌, refl, ◌∙◌, Bool, true, false, List, [], ◌∷◌, if◌then◌else◌, arith, Text,
  length, Bool-cases, inl, inr,
}
use buildbox_common.Path.{before_last, is_absolute}
use buildbox_common.Path.Normal.{IsNormal, segments_of, segments_of-IsNormal, normalize-segments_of}
use buildbox_common.Directories.{
  made, eexist, enoent, Disk, Creation, created, system_error, too_deep, after_last_mkdir,
  after_parent, after_mkdir, create_directories_in_path, create_directory,
}
use buildbox_common.Directories.Texts.{text_of, before_last-text, text_of-length}

module _ (D : Disk) where
  -- What is documented of `mkdir` on a disk whose paths lead to directories only and may all be written
  -- to. A path is a normal form, its segments last first; with no segments it is the root or the
  -- working directory. A new directory is empty.
  pub record IsOpen (is_dir : Bool → List Text → D.World → Bool) : Type 0 where
    pub top : (global : Bool) (w : D.World) → is_dir global [] w ≡ true
    pub at_top : (global : Bool) (w : D.World) → (D.mkdir (text_of global []) w).0 ≡ eexist
    pub answers :
        (global : Bool) (s : Text) (stack : List Text) (w : D.World)
        → IsNormal global (s ∷ stack)
        → (D.mkdir (text_of global (s ∷ stack)) w).0 ≡ (
            if is_dir global (s ∷ stack) w
            then eexist
            else if is_dir global stack w
            then made
            else enoent)
    pub unchanged :
        (path : Text) (w : D.World) → (D.mkdir path w).0 ≡ enoent → (D.mkdir path w).1 ≡ w
    pub stays :
        (path : Text) (global : Bool) (stack : List Text) (w : D.World)
        → is_dir global stack w ≡ true
        → is_dir global stack (D.mkdir path w).1 ≡ true
    pub makes :
        (global : Bool) (stack : List Text) (w : D.World)
        → IsNormal global stack
        → (D.mkdir (text_of global stack) w).0 ≡ made
        → is_dir global stack (D.mkdir (text_of global stack) w).1 ≡ true
    pub new_is_empty :
        (global : Bool) (s : Text) (stack : List Text) (w : D.World)
        → IsNormal global (s ∷ stack)
        → (D.mkdir (text_of global stack) w).0 ≡ made
        → is_dir global (s ∷ stack) (D.mkdir (text_of global stack) w).1 ≡ false

  module _ (is_dir : Bool → List Text → D.World → Bool) (O : IsOpen is_dir) where
    -- The path is a directory, all that were directories still are, and if it is new, it is empty.
    pub record Made (global : Bool) (stack : List Text) (w : D.World) (r : Creation × D.World)
        : Type 0 where
      pub done : r.0 ≡ created
      pub directory : is_dir global stack r.1 ≡ true
      pub others : (g : Bool) (xs : List Text) → is_dir g xs w ≡ true → is_dir g xs r.1 ≡ true
      pub is_empty :
          is_dir global stack w ≡ false
          → (s : Text) → IsNormal global (s ∷ stack)
          → is_dir global (s ∷ stack) r.1 ≡ false

    -- By what the first `mkdir` answers.
    made_first :
        (global : Bool) (stack : List Text) (w : D.World) (parent : D.World → Creation × D.World)
        → IsNormal global stack
        → (D.mkdir (text_of global stack) w).0 ≡ made
        → Made global stack w
            (after_mkdir D (text_of global stack) parent (D.mkdir (text_of global stack) w))
    made_first global stack w parent n e = rw e (record {
      done = refl;
      directory = O.makes global stack w n e;
      others = λ g xs. O.stays (text_of global stack) g xs w;
      is_empty = λ h s m. O.new_is_empty global s stack w m e;
    })

    there_first :
        (global : Bool) (stack : List Text) (w : D.World) (parent : D.World → Creation × D.World)
        → is_dir global stack w ≡ true
        → (D.mkdir (text_of global stack) w).0 ≡ eexist
        → Made global stack w
            (after_mkdir D (text_of global stack) parent (D.mkdir (text_of global stack) w))
    there_first global stack w parent h e = rw e (record {
      done = refl;
      directory = O.stays (text_of global stack) global stack w h;
      others = λ g xs. O.stays (text_of global stack) g xs w;
      is_empty = λ k. absurd (ground (arith, h, k));
    })

    -- The last `mkdir`, for a parent that is there and has no such directory.
    last_mkdir :
        (global : Bool) (s : Text) (stack : List Text) (w v : D.World)
        → IsNormal global (s ∷ stack)
        → is_dir global stack v ≡ true
        → is_dir global (s ∷ stack) v ≡ false
        → ((g : Bool) (xs : List Text) → is_dir g xs w ≡ true → is_dir g xs v ≡ true)
        → Made global (s ∷ stack) w (after_last_mkdir D (D.mkdir (text_of global (s ∷ stack)) v))
    last_mkdir global s stack w v n parent fresh older =
        let path = text_of global (s ∷ stack) in
        let e : (D.mkdir path v).0 ≡ made =
          O.answers global s stack v n ∙ rw (fresh, parent) refl in
        rw e (record {
          done = refl;
          directory = O.makes global (s ∷ stack) v n e;
          others = λ g xs h. O.stays path g xs v (older g xs h);
          is_empty = λ h t m. O.new_is_empty global t (s ∷ stack) v m e;
        })

    after_parent-Made :
        (global : Bool) (s : Text) (stack : List Text) (w : D.World) (r : Creation × D.World)
        → IsNormal global (s ∷ stack)
        → is_dir global stack w ≡ false
        → Made global stack w r
        → Made global (s ∷ stack) w (after_parent D (text_of global (s ∷ stack)) r)
    after_parent-Made global s stack w (created, v) n fresh m =
        last_mkdir global s stack w v n m.directory (m.is_empty fresh s n) m.others
    after_parent-Made global s stack w (system_error, v) n fresh m = absurd (ground (arith, m.done))
    after_parent-Made global s stack w (too_deep, v) n fresh m = absurd (ground (arith, m.done))

    missing_first :
        (global : Bool) (s u : Text) (stack : List Text) (w : D.World) (depth : ℕ)
        → IsNormal global (s ∷ u ∷ stack)
        → is_dir global (s ∷ u ∷ stack) w ≡ false
        → is_dir global (u ∷ stack) w ≡ false
        → Made global
            (u ∷ stack)
            w
            (create_directories_in_path D depth (text_of global (u ∷ stack)) w)
        → Made global (s ∷ u ∷ stack) w (
            after_mkdir D
              (text_of global (s ∷ u ∷ stack))
              (create_directories_in_path D depth (before_last (text_of global (s ∷ u ∷ stack))))
              (D.mkdir (text_of global (s ∷ u ∷ stack)) w))
    missing_first global s u stack w depth n fresh parent m =
        let path = text_of global (s ∷ u ∷ stack) in
        let e : (D.mkdir path w).0 ≡ enoent =
          O.answers global s (u ∷ stack) w n ∙ rw (fresh, parent) refl in
        rw (e, O.unchanged path w e, before_last-text global s u stack n.0)
          (after_parent-Made global s (u ∷ stack) w _ n parent m)

    -- One level of the recursion, given the next.
    missing :
        (global : Bool) (s : Text) (stack : List Text) (w : D.World) (depth : ℕ)
        → IsNormal global (s ∷ stack)
        → is_dir global (s ∷ stack) w ≡ false
        → is_dir global stack w ≡ false
        → Made global stack w (create_directories_in_path D depth (text_of global stack) w)
        → Made global (s ∷ stack) w (
            after_mkdir D
              (text_of global (s ∷ stack))
              (create_directories_in_path D depth (before_last (text_of global (s ∷ stack))))
              (D.mkdir (text_of global (s ∷ stack)) w))
    missing global s [] w depth n fresh orphan m = absurd (ground (arith, orphan, O.top global w))
    missing global s (u ∷ stack) w depth n fresh orphan m =
        missing_first global s u stack w depth n fresh orphan m

    create-Made :
        (depth : ℕ) (global : Bool) (stack : List Text) (w : D.World)
        → IsNormal global stack
        → 1 ≤ depth
        → length stack ≤ depth
        → Made global stack w (create_directories_in_path D depth (text_of global stack) w)
    unfolding create_directories_in_path
    create-Made zero global stack w n p h = absurd (omega arith)
    create-Made (suc depth) global [] w n p h =
        there_first global [] w _ (O.top global w) (O.at_top global w)
    create-Made (suc depth) global (s ∷ stack) w n p h =
        elim (Bool-cases (is_dir global (s ∷ stack) w)) [
          | inl there ↦
              there_first global (s ∷ stack) w _ there
                (O.answers global s stack w n ∙ rw there refl)
          | inr fresh ↦ elim (Bool-cases (is_dir global stack w)) [
            | inl parent ↦
                made_first global (s ∷ stack) w _ n
                  (O.answers global s stack w n ∙ rw (fresh, parent) refl)
            | inr orphan ↦ missing global s stack w depth n fresh orphan (
                create-Made depth global stack w n.4 (some_depth stack depth orphan (omega arith))
                  (omega arith))
          ]
        ]
      where
        some_depth : (xs : List Text) (k : ℕ) → is_dir global xs w ≡ false → length xs ≤ k → 1 ≤ k
        some_depth [] k orphan h = absurd (ground (arith, orphan, O.top global w))
        some_depth (x ∷ xs) k orphan h = omega arith

    -- On an open disk `createDirectory` returns: the normal form of the path is a directory then, all
    -- that were directories still are, and if the directory is new, it is empty.
    pub create_directory-Made :
        (path : Text) (w : D.World)
        → Made (is_absolute path) (segments_of path) w (create_directory D path w)
    unfolding create_directory
    create_directory-Made path w =
        let (one, enough) =
          text_of-length (is_absolute path) (segments_of path) (segments_of-IsNormal path) in
        rw (normalize-segments_of path) (
          create-Made (length (text_of (is_absolute path) (segments_of path))) (is_absolute path)
            (segments_of path) w (segments_of-IsNormal path) one enough)
