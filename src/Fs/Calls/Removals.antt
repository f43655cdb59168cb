-- ===== src/Fs/Calls/Removals.antt =====
-- The removal of directories, fs_rmdir and fs_rrmdr of filesys/fs.c, from any state and by any path.
use gannet_os.Base.{
  ℕ, zero, suc, ◌+◌, ◌≤◌, ◌<◌, ◌≡◌, ◌≢◌, ◌∙◌, sym, subst, Bool, false, inl, inr, List, none, some,
  ◌==◌, Bool-cases, Option-cases, arith,
}
use gannet_os.Fs.{Fs, Inode, max_inodes, name_max, type_dir}
use gannet_os.Fs.Paths.{text, root}
use gannet_os.Fs.Names.{str_eq_iff}
use gannet_os.Fs.Lookup.{name_at, matches_iff, fs_find-cases, inode_read_below, IsUsed, IsDir}
use gannet_os.Fs.Files.{named, erase}
use gannet_os.Fs.Directories.{
  removable, child_at, has_children, fs_rmdir, remove_child, remove_loop, rrmdr, fs_rrmdr,
}
use gannet_os.Fs.Tree.Changes.{IsWell, leaves}
use gannet_os.Fs.Tree.Removal.{erase-Removes}
use gannet_os.Fs.Tree.Recursive.{fs_rrmdr_lem}
use gannet_os.Fs.Layout.Ready.{IsLaidOut}
use gannet_os.Fs.Layout.Erasure.{erase-IsLaid}
use gannet_os.Fs.Tree.Removal.{child_at_lem}
use gannet_os.Fs.Paths.{fs_get_parent, str_eq}
use gannet_os.Fs.Calls.{delete-IsLaid, laid_as}

-- The loop of fs_rmdir that finds nothing.
has_children_lem :
    (left i idx : ℕ) (path : List ℕ) (fs : Fs)
    → IsWell fs.disk
    → i + left ≡ max_inodes
    → has_children left i idx path fs.disk ≡ false
    → (j : ℕ) → i ≤ j
    → j < max_inodes
    → j ≢ idx
    → IsUsed j fs.disk
    → fs_get_parent (name_at j fs.disk) ≢ path
unfolding has_children
has_children_lem zero i idx path fs w e h j p q other used = absurd (omega arith)
has_children_lem (suc left) i idx path fs w e h j p q other used =
    elim (child_at_lem fs w i idx path (omega arith)) [
      | inr (found, _, _, _) ↦ absurd (ground arith)
      | inl (none_here, no_child) ↦ elim (Bool-cases (i == j)) [
        | inl same ↦
            let s : i ≡ j = ground arith in
            subst (λ k. k ≢ idx → IsUsed k fs.disk → fs_get_parent (name_at k fs.disk) ≢ path) s
              no_child other used
        | inr later ↦
            has_children_lem left (i + 1) idx path fs w (omega arith) (ground arith) j
              (ground arith) q other used
      ]
    ]

rrmdr_refused :
    (depth : ℕ) (path : List ℕ) (fs : Fs)
    → removable path fs.disk ≡ none
    → (rrmdr (suc depth) path fs).1 ≡ fs
unfolding rrmdr
rrmdr_refused depth path fs h = ground arith

-- What the path of a directory that may go is.
module _ (fs : Fs) (w : IsWell fs.disk) where
  removable-some :
      (path : List ℕ) (idx : ℕ)
      → removable path fs.disk ≡ some idx
      → (idx < max_inodes) × IsDir idx fs.disk × (name_at idx fs.disk ≡ path) × (path ≢ root)
  unfolding removable
  removable-some path idx h = elim (Bool-cases (str_eq path root)) [
    | inl is_root ↦ absurd (ground arith)
    | inr other ↦ elim (fs_find-cases w.sound path) [
      | inl (missing, _) ↦ absurd (ground arith)
      | inr (k, found, below, m) ↦
          let same : k ≡ idx = ground (arith, inode_read_below w.sound k below) in
          let dir : IsDir k fs.disk = ground (arith, inode_read_below w.sound k below) in
          (
            subst (λ j. j < max_inodes) same below,
            subst (λ j. IsDir j fs.disk) same dir,
            subst (λ j. name_at j fs.disk ≡ path) same ((matches_iff k path fs.disk).0 m).1,
            λ e. cc ((str_eq_iff path root).1 e),
          )
    ]
  ]

  pub rmdir-IsWell : (path : List ℕ) → IsWell (fs_rmdir path fs).1.disk
  unfolding fs_rmdir
  rmdir-IsWell path = elim (Option-cases (removable path fs.disk)) [
    | inl refused ↦ leaves {d = fs.disk} (ground arith) w
    | inr (idx, found) ↦ elim (Bool-cases (has_children max_inodes 0 idx path fs.disk)) [
      | inl full ↦ leaves {d = fs.disk} (ground arith) w
      | inr empty ↦
          let (below, dir, named, _) = removable-some path idx found in
          let gone = erase-Removes fs w idx below (λ j p q used _ n.
            has_children_lem max_inodes 0 idx path fs w (omega arith) empty j (omega arith) p q used
              (sym n ∙ named)) in
          leaves {d = (erase idx fs).1.disk} (ground arith) gone.shrinks.well
    ]
  ]

  pub rrmdr-IsWell : (path : List ℕ) → IsWell (fs_rrmdr path fs).1.disk
  unfolding fs_rrmdr
  rrmdr-IsWell path = elim (Option-cases (removable path fs.disk)) [
    | inl refused ↦ subst (λ f. IsWell f.disk) (sym (rrmdr_refused name_max path fs refused)) w
    | inr (idx, found) ↦
        let (below, dir, named, other) = removable-some path idx found in
        let gone = fs_rrmdr_lem fs idx w below dir (λ r. other (sym named ∙ r)) in
        subst (λ p. IsWell (fs_rrmdr p fs).1.disk) named gone.1
  ]

child-IsLaid :
    (remove : List ℕ → Fs → Bool × Fs)
    → ((path : List ℕ) (fs : Fs) → IsLaidOut fs → IsLaidOut (remove path fs).1)
    → (child : Inode) (fs : Fs) → IsLaidOut fs
    → IsLaidOut (remove_child remove child fs).1
unfolding remove_child
child-IsLaid remove keep child fs laid = elim (Bool-cases (child.kind == type_dir)) [
  | inl dir ↦ rw dir (keep (text child.name) fs laid)
  | inr file ↦ rw file (delete-IsLaid fs laid (text child.name))
]

-- The loop of fs_rrmdr, if the calls for directories keep the layout.
loop-IsLaid :
    (remove : List ℕ → Fs → Bool × Fs)
    → ((path : List ℕ) (fs : Fs) → IsLaidOut fs → IsLaidOut (remove path fs).1)
    → (left i idx : ℕ) (path : List ℕ) (fs : Fs) → IsLaidOut fs
    → IsLaidOut (remove_loop remove left i idx path fs).1
unfolding remove_loop
loop-IsLaid remove keep zero i idx path fs laid = laid
loop-IsLaid remove keep (suc left) i idx path fs laid =
    elim (Option-cases (child_at i idx path fs.disk)) [
      | inl none_here ↦
          laid_as (remove_loop remove (suc left) i idx path fs).1
            (remove_loop remove left (i + 1) idx path fs).1 (ground arith)
            (loop-IsLaid remove keep left (i + 1) idx path fs laid)
      | inr (child, found) ↦
          let r = remove_child remove child fs in
          let kept = child-IsLaid remove keep child fs laid in
          elim (Bool-cases r.0) [
            | inl done ↦
                laid_as (remove_loop remove (suc left) i idx path fs).1
                  (remove_loop remove left (i + 1) idx path r.1).1 (ground arith)
                  (loop-IsLaid remove keep left (i + 1) idx path r.1 kept)
            | inr failed ↦
                laid_as (remove_loop remove (suc left) i idx path fs).1 r.1 (ground arith) kept
          ]
    ]

rrmdr_laid :
    (depth : ℕ) (path : List ℕ) (fs : Fs) → IsLaidOut fs → IsLaidOut (rrmdr depth path fs).1
unfolding rrmdr
rrmdr_laid zero path fs laid = laid
rrmdr_laid (suc depth) path fs laid = elim (Option-cases (removable path fs.disk)) [
  | inl refused ↦ laid_as (rrmdr (suc depth) path fs).1 fs (ground arith) laid
  | inr (idx, found) ↦
      let rest = loop-IsLaid (rrmdr depth) (rrmdr_laid depth) max_inodes 0 idx path fs laid in
      let r = remove_loop (rrmdr depth) max_inodes 0 idx path fs in
      elim (Bool-cases r.0) [
        | inl done ↦
            laid_as (rrmdr (suc depth) path fs).1 (erase idx r.1).1 (ground arith)
              (erase-IsLaid r.1 rest idx)
        | inr failed ↦ laid_as (rrmdr (suc depth) path fs).1 r.1 (ground arith) rest
      ]
]

pub rrmdr-IsLaid : (fs : Fs) (path : List ℕ) → IsLaidOut fs → IsLaidOut (fs_rrmdr path fs).1
unfolding fs_rrmdr
rrmdr-IsLaid fs path laid = rrmdr_laid (name_max + 1) path fs laid
