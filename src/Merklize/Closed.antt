-- ===== src/Merklize/Closed.antt =====
-- Every directory that a directory of a `Tree` names is one of the tree's children.
use buildbox_common.Prelude.{◌≡◌, refl, ◌⊎◌, inl, inr, List, [], ◌∷◌, ◌++◌, Text, All, All-append}
use buildbox_common.Digest.{Digest}
use buildbox_common.Merklize.{NestedDirectory, nested, Subdirs, end, entry}
use buildbox_common.Merklize.Messages.{
  DirectoryNode, Directory, make_digest, to_tree, subdirs_to_tree, all_directories,
}

-- One of the directories has the digest.
abbrev pub Holds : (Directory → Digest) → List Directory → Digest → Type 0
Holds digest_of [] d = ⊥
Holds digest_of (c ∷ cs) d = (digest_of c ≡ d) ⊎ Holds digest_of cs d

Holds-left :
    (digest_of : Directory → Digest) (xs ys : List Directory) (d : Digest)
    → Holds digest_of xs d
    → Holds digest_of (xs ++ ys) d
Holds-left digest_of [] ys d h = elim h [ ]
Holds-left digest_of (x ∷ xs) ys d (inl e) = inl e
Holds-left digest_of (x ∷ xs) ys d (inr h) = inr (Holds-left digest_of xs ys d h)

Holds-right :
    (digest_of : Directory → Digest) (xs ys : List Directory) (d : Digest)
    → Holds digest_of ys d
    → Holds digest_of (xs ++ ys) d
Holds-right digest_of [] ys d h = h
Holds-right digest_of (x ∷ xs) ys d h = inr (Holds-right digest_of xs ys d h)

All-map :
    {A : Type 0} (P Q : A → Type 0) → ((a : A) → P a → Q a) → (xs : List A) → All P xs → All Q xs
All-map P Q f [] h = h
All-map P Q f (x ∷ xs) h = (f x h.0, All-map P Q f xs h.1)

-- Every node of the directory names one of the pool.
abbrev pub NamesIn : (Directory → Digest) → List Directory → Directory → Type 0
NamesIn digest_of pool d = All (λ (n : DirectoryNode). Holds digest_of pool n.digest) d.directories

NamesIn-left :
    (digest_of : Directory → Digest) (xs ys ds : List Directory)
    → All (NamesIn digest_of xs) ds
    → All (NamesIn digest_of (xs ++ ys)) ds
NamesIn-left digest_of xs ys ds =
    All-map (NamesIn digest_of xs) (NamesIn digest_of (xs ++ ys))
      (λ d.
        All-map (λ n. Holds digest_of xs n.digest) (λ n. Holds digest_of (xs ++ ys) n.digest)
          (λ n. Holds-left digest_of xs ys n.digest) d.directories)
      ds

NamesIn-right :
    (digest_of : Directory → Digest) (xs ys ds : List Directory)
    → All (NamesIn digest_of ys) ds
    → All (NamesIn digest_of (xs ++ ys)) ds
NamesIn-right digest_of xs ys ds =
    All-map (NamesIn digest_of ys) (NamesIn digest_of (xs ++ ys))
      (λ d.
        All-map (λ n. Holds digest_of ys n.digest) (λ n. Holds digest_of (xs ++ ys) n.digest)
          (λ n. Holds-right digest_of xs ys n.digest) d.directories)
      ds

module _ (serialize : Directory → Text) (hash : Text → Digest) where
  abbrev digest_of : Directory → Digest
  digest_of = make_digest serialize hash

  abbrev nodes_of : Subdirs → List DirectoryNode
  nodes_of ds = (subdirs_to_tree serialize hash ds).0

  abbrev children_of : Subdirs → List Directory
  children_of ds = (subdirs_to_tree serialize hash ds).1

  Holds-root :
      (xs : List Directory) (d : Directory) → Holds digest_of (xs ++ (d ∷ [])) (digest_of d)
  Holds-root xs d = Holds-right digest_of xs (d ∷ []) (digest_of d) (inl refl)

  mutual
    unfolding to_tree

    tree_names :
        (dir : NestedDirectory)
        → All
            (NamesIn digest_of (to_tree serialize hash dir).children)
            (all_directories serialize hash (to_tree serialize hash dir))
    tree_names (nested files symlinks subdirs) =
        All-append (NamesIn digest_of (children_of subdirs)) (children_of subdirs) _
          (children_name subdirs) (nodes_name subdirs, tt)

    nodes_name :
        (ds : Subdirs)
        → All (λ (n : DirectoryNode). Holds digest_of (children_of ds) n.digest) (nodes_of ds)
    nodes_name end = tt
    nodes_name (entry name dir rest) = (
      Holds-left digest_of (all_directories serialize hash (to_tree serialize hash dir))
          (children_of rest) _
          (Holds-root (to_tree serialize hash dir).children (to_tree serialize hash dir).root),
      All-map (λ n. Holds digest_of (children_of rest) n.digest)
          (λ n. Holds digest_of (children_of (entry name dir rest)) n.digest)
          (λ n.
            Holds-right digest_of (all_directories serialize hash (to_tree serialize hash dir))
              (children_of rest) n.digest)
          (nodes_of rest) (nodes_name rest),
    )

    children_name : (ds : Subdirs) → All (NamesIn digest_of (children_of ds)) (children_of ds)
    children_name end = tt
    children_name (entry name dir rest) =
        let t = to_tree serialize hash dir in
        let dirs = all_directories serialize hash t in
        All-append (NamesIn digest_of (children_of (entry name dir rest))) dirs (children_of rest)
          (NamesIn-left digest_of dirs (children_of rest) dirs
            (NamesIn-left digest_of t.children (t.root ∷ []) dirs (tree_names dir)))
          (NamesIn-right digest_of dirs (children_of rest) (children_of rest) (children_name rest))

  -- In the `Tree` that `to_tree` makes, every node of the root and of each child has the digest of
  -- one of the children.
  pub to_tree-NamesIn :
      (dir : NestedDirectory)
      → All
          (NamesIn (make_digest serialize hash) (to_tree serialize hash dir).children)
          (all_directories serialize hash (to_tree serialize hash dir))
  to_tree-NamesIn = tree_names
