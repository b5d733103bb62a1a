-- ===== src/Runner/Outputs/Parents.antt =====
-- The directories that `createOutputDirectories` makes.
use buildbox_common.Prelude.{
  ◌≡◌, refl, Bool, true, List, [], ◌∷◌, ◌++◌, Option, none, some, Text, All, All-append, arith,
}
use buildbox_common.Path.{slash, cut_last, is_absolute}
use buildbox_common.Path.Normal.{segments_of}
use buildbox_common.Directories.{Disk, Creation, created, system_error, too_deep}
use buildbox_common.Directories.Made.{IsOpen, create_directory-Made}
use buildbox_common.Runner.{Command}
use buildbox_common.Runner.Outputs.{
  create_parent, create_directory_if_needed, then_create, create_each, create_outputs,
  create_output_directories,
}

-- The outputs whose parents are made: the paths if there are any, else the files and the directories.
abbrev pub outputs_of : Command → List Text
outputs_of command = elim command.output_paths [
  | [] ↦ command.output_files ++ command.output_directories
  | p ∷ ps ↦ p ∷ ps
]

module _ (D : Disk) (is_dir : Bool → List Text → D.World → Bool) where
  abbrev pub IsThere : Text → D.World → Type 0
  IsThere path w = is_dir (is_absolute path) (segments_of path) w ≡ true

  abbrev pub IsParent : Text → Option (Text × Text) → D.World → Type 0
  IsParent dir none w = Unit
  IsParent dir (some (before, after)) w = IsThere (dir ++ slash ∷ before) w

  -- The parent of an output, if its path has a slash, is a directory.
  abbrev pub HasParent : Text → Text → D.World → Type 0
  HasParent dir output w = IsParent dir (cut_last output) w

  -- The outputs were made, and all that were directories still are.
  pub record AllMade (dir : Text) (outputs : List Text) (w : D.World) (r : Creation × D.World)
      : Type 0 where
    pub done : r.0 ≡ created
    pub parents : All (λ (output : Text). HasParent dir output r.1) outputs
    pub others : (g : Bool) (xs : List Text) → is_dir g xs w ≡ true → is_dir g xs r.1 ≡ true

  module _ (O : IsOpen D is_dir) (dir : Text) where
    Older : D.World → D.World → Type 0
    Older w v = (g : Bool) (xs : List Text) → is_dir g xs w ≡ true → is_dir g xs v ≡ true

    IsParent-stays :
        (w v : D.World) (x : Option (Text × Text)) → Older w v → IsParent dir x w → IsParent dir x v
    unfolding Older
    IsParent-stays w v none k h = tt
    IsParent-stays w v (some (before, after)) k h = k _ _ h

    All-stays :
        (w v : D.World) (xs : List Text)
        → Older w v
        → All (λ (output : Text). HasParent dir output w) xs
        → All (λ (output : Text). HasParent dir output v) xs
    All-stays w v [] k h = tt
    All-stays w v (x ∷ xs) k h = (IsParent-stays w v (cut_last x) k h.0, All-stays w v xs k h.1)

    create_parent-made :
        (x : Option (Text × Text)) (w : D.World)
        → ((create_parent D dir x w).0 ≡ created)
          × IsParent dir x (create_parent D dir x w).1
          × Older w (create_parent D dir x w).1
    unfolding Older
    create_parent-made none w = (refl, tt, λ g xs h. h)
    create_parent-made (some (before, after)) w =
        let m = create_directory-Made D is_dir O (dir ++ slash ∷ before) w in
        (m.done, m.directory, m.others)

    then-AllMade :
        (output : Text) (rest : List Text) (w : D.World) (x : Creation × D.World)
        (go_on : D.World → Creation × D.World)
        → (x.0 ≡ created) × IsParent dir (cut_last output) x.1 × Older w x.1
        → ((v : D.World) → AllMade dir rest v (go_on v))
        → AllMade dir (output ∷ rest) w (then_create D go_on x)
    unfolding Older
    then-AllMade output rest w (created, v) go_on h k =
        let m = k v in
        record {
          done = m.done;
          parents = (IsParent-stays v (go_on v).1 (cut_last output) m.others h.1, m.parents);
          others = λ g xs e. m.others g xs (h.2 g xs e);
        }
    then-AllMade output rest w (system_error, v) go_on h k = absurd (ground (arith, h.0))
    then-AllMade output rest w (too_deep, v) go_on h k = absurd (ground (arith, h.0))

    create_each-AllMade :
        (outputs : List Text) (w : D.World) → AllMade dir outputs w (create_each D dir outputs w)
    unfolding create_each
    create_each-AllMade [] w = record { done = refl; parents = tt; others = λ g xs h. h }
    create_each-AllMade (output ∷ rest) w =
        then-AllMade output rest w (create_directory_if_needed D dir output w) _
          (create_parent-made (cut_last output) w) (create_each-AllMade rest)

    both-AllMade :
        (xs ys : List Text) (w : D.World) (x : Creation × D.World)
        → AllMade dir xs w x
        → AllMade dir (xs ++ ys) w (then_create D (create_each D dir ys) x)
    both-AllMade xs ys w (created, v) h =
        let m = create_each-AllMade ys v in
        let r = create_each D dir ys v in
        record {
          done = m.done;
          parents =
              All-append (λ (output : Text). HasParent dir output r.1) xs ys
                (All-stays v r.1 xs (unfold Older in m.others) h.parents) m.parents;
          others = λ g zs e. m.others g zs (h.others g zs e);
        }
    both-AllMade xs ys w (system_error, v) h = absurd (ground (arith, h.done))
    both-AllMade xs ys w (too_deep, v) h = absurd (ground (arith, h.done))

    -- On a disk whose paths lead to directories only and that refuses none, `createOutputDirectories`
    -- returns. The parent of each output whose path has a slash, below the working directory, is then a
    -- directory, for the paths of the command if it has any and else for its files and its
    -- directories, and all that were directories still are.
    pub create_output_directories-AllMade :
        (command : Command) (w : D.World)
        → AllMade dir (outputs_of command) w (create_output_directories D command dir w)
    unfolding create_output_directories
    create_output_directories-AllMade command w = go command.output_paths
      where
        go :
            (paths : List Text)
            → AllMade dir
                (elim paths [
                  | [] ↦ command.output_files ++ command.output_directories
                  | p ∷ ps ↦ p ∷ ps
                ])
                w
                (create_outputs D paths command dir w)
        go [] =
            both-AllMade command.output_files command.output_directories w
              (create_each D dir command.output_files w)
              (create_each-AllMade command.output_files w)
        go (p ∷ ps) = create_each-AllMade (p ∷ ps) w
