-- ===== src/Fs/Tree/Emptied.antt =====
-- The loop of fs_rrmdr of filesys/fs.c over the entries of a directory, and what lies below one.
use gannet_os.Base.{
  ℕ, zero, suc, ◌+◌, ◌<◌, ◌≡◌, ◌≢◌, refl, ap, ◌∙◌, sym, subst, Bool, true, ◌⊎◌, inl, inr, List,
  none, some, ◌==◌, Bool-cases, length, arith, ltb,
}
use gannet_os.Disk.{Disk}
use gannet_os.Fs.{Fs, Inode, max_inodes, type_free}
use gannet_os.Fs.Inodes.{inode_at}
use gannet_os.Fs.Paths.{text, root, fs_get_parent}
use gannet_os.Fs.Names.{fs_get_parent-lt, fs_get_parent_short}
use gannet_os.Fs.Lookup.{name_at, IsUsed, IsDir}
use gannet_os.Fs.Files.{erase}
use gannet_os.Fs.Directories.{removable, child_at, remove_child, remove_loop, rrmdr}
use gannet_os.Fs.Tree.Changes.{IsWell}
use gannet_os.Fs.Tree.Removal.{
  Below, Below-trans, child, deeper, Shrinks, Shrinks-refl, Shrinks-trans, Shrinks-mono, Removes,
  erase-Removes, child_at_lem,
}

-- The directory itself, and what lies below it.
abbrev pub Within : List ℕ → List ℕ → Type 0
Within path name = (name ≡ path) ⊎ Below path name

-- Of the first inodes none but the directory's own is an entry of it.
abbrev NoChildBefore : ℕ → ℕ → List ℕ → Disk → Type 0
NoChildBefore i idx path d =
    (j : ℕ) → j < i → j ≢ idx → IsUsed j d → fs_get_parent (name_at j d) ≢ path

pub record Emptied (idx : ℕ) (path : List ℕ) (d : Disk) (r : Bool × Fs) : Type 0 where
  pub done : r.0 ≡ true
  shrinks : Shrinks (Below path) d r.1.disk
  empty : NoChildBefore max_inodes idx path r.1.disk

-- What a call for a child removes lies below the directory.
Within-child :
    {path : List ℕ} {name : List ℕ}
    → fs_get_parent name ≡ path
    → (n : List ℕ) → Within name n
    → Below path n
Within-child {path} e n (inl same) = subst (Below path) (sym same) (child e)
Within-child e n (inr below) = Below-trans e below

Emptied-after :
    (idx : ℕ) (path : List ℕ) (d d' : Disk) (r : Bool × Fs)
    → Shrinks (Below path) d d'
    → Emptied idx path d' r
    → Emptied idx path d r
Emptied-after idx path d d' r s e = record {
  done = e.done;
  shrinks = Shrinks-trans s e.shrinks;
  empty = e.empty;
}

-- A directory that was not an entry's keeps having none of the first inodes.
NoChildBefore-Shrinks :
    (i idx : ℕ) (path : List ℕ) {G : List ℕ → Type 0} (d d' : Disk)
    → i < max_inodes
    → Shrinks G d d'
    → (inode_at i d').kind ≡ type_free
    → NoChildBefore i idx path d
    → NoChildBefore (i + 1) idx path d'
NoChildBefore-Shrinks i idx path d d' below s freed before j p other used e =
    before j
      (elim (Bool-cases (j == i)) [
        | inl same ↦
            absurd
              (used (ap (λ k. (inode_at k d').kind) (let q : j ≡ i = ground arith in q) ∙ freed))
        | inr diff ↦ ground arith
      ])
      other (subst (λ (m : Inode). m.kind ≢ type_free) stays used)
      (ap (λ (m : Inode). fs_get_parent (text m.name)) (sym stays) ∙ e)
  where
    stays : inode_at j d' ≡ inode_at j d
    stays = s.kept j (omega arith) used

NoChildBefore-next :
    (i idx : ℕ) (path : List ℕ) (d : Disk)
    → (i ≢ idx → IsUsed i d → fs_get_parent (name_at i d) ≢ path)
    → NoChildBefore i idx path d
    → NoChildBefore (i + 1) idx path d
NoChildBefore-next i idx path d here before j p other used = elim (Bool-cases (i == j)) [
  | inl same ↦
      let q : i ≡ j = ground arith in
      subst (λ k. k ≢ idx → IsUsed k d → fs_get_parent (name_at k d) ≢ path) q here other used
  | inr diff ↦ before j (ground arith) other used
]

module _ (remove : List ℕ → Fs → Bool × Fs) where
  loop_skip :
      (left i idx : ℕ) (path : List ℕ) (fs : Fs)
      → child_at i idx path fs.disk ≡ none
      → remove_loop remove (suc left) i idx path fs ≡ remove_loop remove left (i + 1) idx path fs
  unfolding remove_loop
  loop_skip left i idx path fs e = ground arith

  loop_call :
      (left i idx : ℕ) (path : List ℕ) (fs : Fs) (c : Inode)
      → child_at i idx path fs.disk ≡ some c
      → (remove_child remove c fs).0 ≡ true
      → remove_loop remove (suc left) i idx path fs
        ≡ remove_loop remove left (i + 1) idx path (remove_child remove c fs).1
  unfolding remove_loop
  loop_call left i idx path fs c e h = ground arith

  module _ (idx : ℕ) (path : List ℕ)
      (calls : (fs : Fs)
        → IsWell fs.disk
        → (i : ℕ) → i < max_inodes
        → IsUsed i fs.disk
        → fs_get_parent (name_at i fs.disk) ≡ path
        → Removes
            (Within (name_at i fs.disk))
            i
            fs.disk
            (remove_child remove (inode_at i fs.disk) fs)) where
    pub loop_lem :
        (left i : ℕ) (fs : Fs)
        → IsWell fs.disk
        → i + left ≡ max_inodes
        → NoChildBefore i idx path fs.disk
        → Emptied idx path fs.disk (remove_loop remove left i idx path fs)
    unfolding remove_loop
    loop_lem zero i fs w h before = record {
      done = refl;
      shrinks = Shrinks-refl w;
      empty = λ j p. before j (omega arith);
    }
    loop_lem (suc left) i fs w h before = elim (child_at_lem fs w i idx path (omega arith)) [
      | inl (skipped, no_child) ↦
          subst (Emptied idx path fs.disk) (sym (loop_skip left i idx path fs skipped)) (
            loop_lem left (i + 1) fs w (omega arith)
              (NoChildBefore-next i idx path fs.disk no_child before))
      | inr (found, other, used, is_child) ↦
          let r = calls fs w i (omega arith) used is_child in
          let s = Shrinks-mono (Within-child is_child) r.shrinks in
          let fs' = (remove_child remove (inode_at i fs.disk) fs).1 in
          subst (Emptied idx path fs.disk)
            (sym (loop_call left i idx path fs (inode_at i fs.disk) found r.done))
            (Emptied-after idx path fs.disk fs'.disk _ s (
              loop_lem left (i + 1) fs' s.well (omega arith)
                (NoChildBefore-Shrinks i idx path fs.disk fs'.disk (omega arith) s r.freed before)))
    ]

pub Below-root : {path name : List ℕ} → path ≢ root → Below path name → name ≢ root
Below-root h (child e) r = h (sym e ∙ ap fs_get_parent r ∙ fs_get_parent_short root (omega arith))
Below-root h (deeper b) r =
    Below-root h b (ap fs_get_parent r ∙ fs_get_parent_short root (omega arith))

-- What lies below a directory has a longer name.
pub Below-lt : {path name : List ℕ} → path ≢ root → Below path name → length path < length name
Below-lt {path} {name} h (child e) = elim (Bool-cases (ltb 1 (length name))) [
  | inl long ↦ omega (arith, fs_get_parent-lt name (ground arith), ap (λ (l : List ℕ). length l) e)
  | inr short ↦ absurd (h (sym e ∙ fs_get_parent_short name (ground arith)))
]
Below-lt {path} {name} h (deeper b) = elim (Bool-cases (ltb 1 (length name))) [
  | inl long ↦ omega (arith, fs_get_parent-lt name (ground arith), Below-lt h b)
  | inr short ↦ absurd (Below-root h b (fs_get_parent_short name (ground arith)))
]

pub rrmdr_step :
    (depth idx : ℕ) (path : List ℕ) (fs : Fs)
    → removable path fs.disk ≡ some idx
    → (remove_loop (rrmdr depth) max_inodes 0 idx path fs).0 ≡ true
    → rrmdr (suc depth) path fs ≡ erase idx (remove_loop (rrmdr depth) max_inodes 0 idx path fs).1
unfolding rrmdr
rrmdr_step depth idx path fs e h = ground arith

-- When the entries are gone, the directory goes.
pub erase-Emptied :
    (idx : ℕ) (path : List ℕ) (fs : Fs) (r : Bool × Fs)
    → idx < max_inodes
    → IsDir idx fs.disk
    → name_at idx fs.disk ≡ path
    → path ≢ root
    → Emptied idx path fs.disk r
    → Removes (Within path) idx fs.disk (erase idx r.1)
erase-Emptied idx path fs r below dir named other e = record {
  done = last.done;
  shrinks =
      Shrinks-trans (Shrinks-mono (λ n b. inr b) e.shrinks)
        (Shrinks-mono (λ n g. inl (g ∙ name_stays)) last.shrinks);
  freed = last.freed;
}
  where
    stays : inode_at idx r.1.disk ≡ inode_at idx fs.disk
    stays =
        e.shrinks.untouched idx below (λ free. ground arith)
          λ b. let far = Below-lt other b in omega (arith, far, ap (λ (l : List ℕ). length l) named)

    name_stays : name_at idx r.1.disk ≡ path
    name_stays = ap (λ (m : Inode). text m.name) stays ∙ named

    last : Removes (λ n. n ≡ name_at idx r.1.disk) idx r.1.disk (erase idx r.1)
    last =
        erase-Removes r.1 e.shrinks.well idx below
          λ j p q used d g. e.empty j p q used (sym g ∙ name_stays)
