-- ===== src/Merklize/Adds.antt =====
-- What `add` leaves where: the file at its path, and every other file as it was.
use buildbox_common.Prelude.{
  ◌≡◌, refl, ap, ◌∙◌, inl, inr, Bool, true, false, ◌&&◌, List, [], ◌∷◌, Option, none, some, arith,
  if◌then◌else◌, Text, text_eq, text_eq→eq, text_eq_refl, Bool-cases,
}
use buildbox_common.Path.{cut}
use buildbox_common.Path.Split.{split, split_after, split-cut}
use buildbox_common.Merklize.{
  File, NestedDirectory, nested, Subdirs, end, entry, put, get_subdir, put_subdir, update_subdir,
  put_file, at_path, add,
}

-- `m.find(key)`
unfoldable pub find_in : {V : Type 0} → List (Text × V) → Text → Option V
find_in [] key = none
find_in ((n, v) ∷ rest) key =
    let found = find_in rest key in if text_eq n key then some v else found

pub find-put :
    {V : Type 0} (m : List (Text × V)) (name : Text) (value : V) (key : Text)
    → find_in (put m name value) key ≡ (if text_eq name key then some value else find_in m key)
unfolding find_in put
find-put [] name value key = refl
find-put ((n, v) ∷ rest) name value key = elim (Bool-cases (text_eq n name)) [
  | inl e ↦ let same = text_eq→eq n name e in rw (same, text_eq_refl name) (ground arith)
  | inr e ↦ elim (Bool-cases (text_eq name key)) [
    | inl d ↦ let same = text_eq→eq name key d in ground (arith, find-put rest name value key)
    | inr d ↦ ground (arith, find-put rest name value key)
  ]
]

pub get-put_subdir :
    (subdirs : Subdirs) (name : Text) (dir : NestedDirectory) (key : Text)
    → get_subdir (put_subdir subdirs name dir) key
      ≡ (if text_eq name key then dir else get_subdir subdirs key)
unfolding get_subdir put_subdir
get-put_subdir end name dir key = refl
get-put_subdir (entry n d rest) name dir key = elim (Bool-cases (text_eq n name)) [
  | inl e ↦ let same = text_eq→eq n name e in rw (same, text_eq_refl name) (ground arith)
  | inr e ↦ elim (Bool-cases (text_eq name key)) [
    | inl d' ↦ let same = text_eq→eq name key d' in ground (arith, get-put_subdir rest name dir key)
    | inr d' ↦ ground (arith, get-put_subdir rest name dir key)
  ]
]

-- The subdirectories that a path leads through, and the name at its end.
unfoldable pub route : List Text → List Text × Text
route [] = ([], [])
route (name ∷ []) = ([], name)
route (name ∷ next ∷ rest) =
    let (through, last) = route (next ∷ rest) in
    if text_eq name [] then (through, last) else (name ∷ through, last)

-- `at_path` on a route.
unfoldable pub put_at :
    (NestedDirectory → Text → NestedDirectory)
    → List Text
    → Text
    → NestedDirectory
    → NestedDirectory
put_at at_last [] last dir = at_last dir last
put_at at_last (name ∷ rest) last dir = update_subdir dir name (put_at at_last rest last)

pub at_path-route :
    (at_last : NestedDirectory → Text → NestedDirectory) (name : Text) (rest : List Text)
    (dir : NestedDirectory)
    → at_path at_last (name ∷ rest) dir
      ≡ put_at at_last (route (name ∷ rest)).0 (route (name ∷ rest)).1 dir
unfolding at_path route put_at text_eq
at_path-route at_last name [] dir = refl
at_path-route at_last [] (next ∷ rest) dir = at_path-route at_last next rest dir
at_path-route at_last (c ∷ cs) (next ∷ rest) dir =
    ap (update_subdir dir (c ∷ cs)) (λ i below. at_path-route at_last next rest below i)

-- The file at the end of a route, if there is one.
pub find_at : List Text → Text → NestedDirectory → Option File
find_at [] last (nested files symlinks subdirs) = find_in files last
find_at (name ∷ rest) last (nested files symlinks subdirs) =
    find_at rest last (get_subdir subdirs name)

unfoldable pub routes_eq : List Text → List Text → Bool
routes_eq [] [] = true
routes_eq [] (y ∷ ys) = false
routes_eq (x ∷ xs) [] = false
routes_eq (x ∷ xs) (y ∷ ys) = text_eq x y && routes_eq xs ys

find-put_at :
    (file : File) (ps : List Text) (p : Text) (qs : List Text) (q : Text) (dir : NestedDirectory)
    → find_at qs q (put_at (λ d name. put_file d name file) ps p dir)
      ≡ (if routes_eq ps qs && text_eq p q then some file else find_at qs q dir)
unfolding find_at put_at update_subdir routes_eq
find-put_at file [] p [] q (nested files symlinks subdirs) = find-put files p file q
find-put_at file [] p (y ∷ qs) q (nested files symlinks subdirs) = refl
find-put_at file (x ∷ ps) p [] q (nested files symlinks subdirs) = refl
find-put_at file (x ∷ ps) p (y ∷ qs) q (nested files symlinks subdirs) =
    ap (find_at qs q) (get-put_subdir subdirs x _ y) ∙ elim (Bool-cases (text_eq x y)) [
      | inl e ↦ rw (e, text_eq→eq x y e) (find-put_at file ps p qs q (get_subdir subdirs y))
      | inr e ↦ rw e refl
    ]

-- The file at a path, by its parts.
pub find_file : Text → NestedDirectory → Option File
find_file path dir = find_at (route (split path)).0 (route (split path)).1 dir

-- Whether two paths have the same parts, empty ones that are not the last left out.
unfoldable pub same_path : Text → Text → Bool
same_path p q =
    routes_eq (route (split p)).0 (route (split q)).0
    && text_eq (route (split p)).1 (route (split q)).1

-- After `add` of a file at a path, that file stands at each path with the same parts, and at every
-- other path stands the file that stood there before, or none if there was none.
pub find_file-add :
    (file : File) (path other : Text) (dir : NestedDirectory)
    → find_file other (add file path dir)
      ≡ (if same_path path other then some file else find_file other dir)
unfolding add find_file same_path
find_file-add file path other dir =
    rw
      (
        split-cut path,
        at_path-route (λ d name. put_file d name file) (cut path).0 (split_after (cut path).1) dir,
      )
      (find-put_at file _ _ _ _ dir)
