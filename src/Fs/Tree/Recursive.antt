-- ===== src/Fs/Tree/Recursive.antt =====
-- The recursive removal fs_rrmdr of filesys/fs.c.
use gannet_os.Base.{
  ℕ, zero, suc, ◌+◌, ◌≤◌, ◌<◌, ◌≡◌, ◌≢◌, refl, ap, ◌∙◌, sym, subst, true, inl, inr, List, ◌==◌,
  Bool-cases, length, arith,
}
use gannet_os.Disk.{Disk}
use gannet_os.Fs.{Fs, Inode, max_inodes, name_max, type_free, type_dir}
use gannet_os.Fs.Inodes.{inode_at, length-name}
use gannet_os.Fs.Paths.{text, root, fs_get_parent}
use gannet_os.Fs.Names.{length-text}
use gannet_os.Fs.Lookup.{name_at, IsUsed, IsDir, HasDir}
use gannet_os.Fs.Directories.{remove_child, rrmdr, fs_rrmdr}
use gannet_os.Fs.Tree.Changes.{IsWell}
use gannet_os.Fs.Tree.Removal.{
  Below, child, deeper, Shrinks, Shrinks-mono, Removes, fs_delete-Removes, removable_lem,
}
use gannet_os.Fs.Tree.Emptied.{Within, loop_lem, Below-root, Below-lt, rrmdr_step, erase-Emptied}

-- The removal with a depth of recursion that is enough for the name.
abbrev Deep : ℕ → Type 0
Deep n =
    (fs : Fs)
    → IsWell fs.disk
    → (i : ℕ) → i < max_inodes
    → IsDir i fs.disk
    → name_at i fs.disk ≢ root
    → name_max < length (name_at i fs.disk) + n
    → Removes (Within (name_at i fs.disk)) i fs.disk (rrmdr n (name_at i fs.disk) fs)

module _ (depth : ℕ) where
  call_lem :
      Deep depth
      → (path : List ℕ) → path ≢ root
      → name_max < length path + suc depth
      → (fs : Fs) → IsWell fs.disk
      → (i : ℕ) → i < max_inodes
      → IsUsed i fs.disk
      → fs_get_parent (name_at i fs.disk) ≡ path
      → Removes
          (Within (name_at i fs.disk))
          i
          fs.disk
          (remove_child (rrmdr depth) (inode_at i fs.disk) fs)
  unfolding remove_child
  call_lem deep path h far fs w i below used e =
      elim (Bool-cases ((inode_at i fs.disk).kind == type_dir)) [
        | inl dir ↦ rw dir (
            deep fs w i below (ground arith) (Below-root h (child e))
              (omega (arith, Below-lt h (child e))))
        | inr file ↦
            let r = fs_delete-Removes fs w i below used (λ d. ground arith) in
            rw file (record {
              done = r.done;
              shrinks = Shrinks-mono (λ n g. inl g) r.shrinks;
              freed = r.freed;
            })
      ]

  Deep-step : Deep depth → Deep (suc depth)
  Deep-step deep fs w i below dir h far =
      let path = name_at i fs.disk in
      let emptied =
        loop_lem (rrmdr depth) i path (call_lem deep path h far) max_inodes 0 fs w (omega arith)
          (λ j p. absurd (omega arith)) in
      subst (Removes (Within path) i fs.disk)
        (sym (rrmdr_step depth i path fs (removable_lem fs w i below dir h) emptied.done))
        (erase-Emptied i path fs _ below dir refl h emptied)

name-le : (i : ℕ) (d : Disk) → length (name_at i d) ≤ name_max
name-le i d = omega (arith, length-text (inode_at i d).name, length-name i d)

rrmdr-Removes : (depth : ℕ) → Deep depth
rrmdr-Removes zero = λ fs w i below dir h far. absurd (omega (arith, name-le i fs.disk))
rrmdr-Removes (suc depth) = Deep-step depth (rrmdr-Removes depth)

-- In a tree whose directory is gone, nothing is left below it.
Below-gone :
    {path : List ℕ} (d : Disk)
    → IsWell d
    → path ≢ root
    → ((k : ℕ) → k < max_inodes → IsUsed k d → name_at k d ≢ path)
    → {name : List ℕ} → Below path name
    → (k : ℕ) → k < max_inodes
    → IsUsed k d
    → name_at k d ≢ name
Below-gone d w h gone (child e) k below used n =
    elim (subst (λ s. HasDir s d) (ap fs_get_parent n ∙ e) (w.tree.parents k below used)) [
      | inl r ↦ h r
      | inr (j, p, dir, named) ↦ gone j p (λ free. ground arith) named
    ]
Below-gone d w h gone {name} (deeper b) k below used n =
    elim (subst (λ s. HasDir s d) (ap fs_get_parent n) (w.tree.parents k below used)) [
      | inl r ↦ Below-root h b r
      | inr (j, p, dir, named) ↦ Below-gone d w h gone b j p (λ free. ground arith) named
    ]

-- In a well-formed tree on a drive without faults, let inode `i` be a directory other than the root.
-- Then `fs_rrmdr` for its name succeeds within its depth of recursion and leaves a well-formed
-- tree: the directory and every entry below it are gone, and every other entry is as before.
pub fs_rrmdr_lem :
    (fs : Fs) (i : ℕ)
    → IsWell fs.disk
    → i < max_inodes
    → IsDir i fs.disk
    → name_at i fs.disk ≢ root
    → ((fs_rrmdr (name_at i fs.disk) fs).0 ≡ true)
      × IsWell (fs_rrmdr (name_at i fs.disk) fs).1.disk
      × ((j : ℕ)
          → j < max_inodes
          → IsUsed j (fs_rrmdr (name_at i fs.disk) fs).1.disk
          → ¬ Within (name_at i fs.disk) (name_at j (fs_rrmdr (name_at i fs.disk) fs).1.disk))
      × ((j : ℕ)
          → j < max_inodes
          → IsUsed j fs.disk
          → ¬ Within (name_at i fs.disk) (name_at j fs.disk)
          → inode_at j (fs_rrmdr (name_at i fs.disk) fs).1.disk ≡ inode_at j fs.disk)
unfolding fs_rrmdr
fs_rrmdr_lem fs i w below dir h = (r.done, s.well, left, s.untouched)
  where
    path : List ℕ
    path = name_at i fs.disk

    r : Removes (Within path) i fs.disk (rrmdr (name_max + 1) path fs)
    r = rrmdr-Removes (name_max + 1) fs w i below dir h (omega arith)

    s : Shrinks (Within path) fs.disk (rrmdr (name_max + 1) path fs).1.disk
    s = r.shrinks

    gone :
        (k : ℕ)
        → k < max_inodes
        → IsUsed k (rrmdr (name_max + 1) path fs).1.disk
        → name_at k (rrmdr (name_max + 1) path fs).1.disk ≢ path
    gone k p used n =
        let stays = s.kept k p used in
        let same =
          w.tree.unique k i p below (subst (λ (m : Inode). m.kind ≢ type_free) stays used)
            (λ free. ground arith) (sym (ap (λ (m : Inode). text m.name) stays) ∙ n) in
        used (ap (λ j. (inode_at j (rrmdr (name_max + 1) path fs).1.disk).kind) same ∙ r.freed)

    left :
        (j : ℕ)
        → j < max_inodes
        → IsUsed j (rrmdr (name_max + 1) path fs).1.disk
        → ¬ Within path (name_at j (rrmdr (name_max + 1) path fs).1.disk)
    left j p used (inl n) = gone j p used n
    left j p used (inr b) =
        Below-gone (rrmdr (name_max + 1) path fs).1.disk s.well h gone b j p used refl
