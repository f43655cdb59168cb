-- ===== src/Fs/Directories.antt =====
-- The operations on directories of filesys/fs.c. The results 0 and -1 are `true` and `false`.
use gannet_os.Base.{
  ℕ, zero, suc, ◌+◌, Bool, true, false, List, Option, none, some, ◌==◌, if◌then◌else◌,
}
use gannet_os.Disk.{Disk}
use gannet_os.Fs.{Fs, Inode, type_free, type_dir, inode_read, max_inodes, name_max}
use gannet_os.Fs.Paths.{str_eq, text, root, fs_get_parent, fs_find}
use gannet_os.Fs.Files.{create_inode, erase, fs_delete}

unfoldable pub fs_mkdir : List ℕ → Fs → Bool × Fs
fs_mkdir path fs = elim (fs_find path fs.disk) [
  | some idx ↦ (false, fs)
  | none ↦ elim (create_inode path type_dir fs.disk) [
    | none ↦ (false, fs)
    | some (idx, d) ↦ (true, record fs { disk = d })
  ]
]

-- The inode of a path that names a directory other than the root.
unfoldable pub removable : List ℕ → Disk → Option ℕ
removable path d = if str_eq path root then none else elim (fs_find path d) [
  | none ↦ none
  | some idx ↦ elim (inode_read idx d) [
    | none ↦ none
    | some inode ↦ if inode.kind == type_dir then some idx else none
  ]
]

-- The inode `i` if it is an entry of the directory `path` at `idx`.
unfoldable pub child_at : ℕ → ℕ → List ℕ → Disk → Option Inode
child_at i idx path d = if i == idx then none else elim (inode_read i d) [
  | none ↦ none
  | some child ↦
      if child.kind == type_free
      then none
      else if str_eq (fs_get_parent (text child.name)) path
      then some child
      else none
]

-- The loop of fs_rmdir for an entry, with the number of inodes left.
unfoldable pub has_children : ℕ → ℕ → ℕ → List ℕ → Disk → Bool
has_children zero i idx path d = false
has_children (suc left) i idx path d =
    let rest = has_children left (i + 1) idx path d in
    elim (child_at i idx path d) [ some child ↦ true | none ↦ rest ]

unfoldable pub fs_rmdir : List ℕ → Fs → Bool × Fs
fs_rmdir path fs = elim (removable path fs.disk) [
  | none ↦ (false, fs)
  | some idx ↦ if has_children max_inodes 0 idx path fs.disk then (false, fs) else erase idx fs
]

-- The call for an entry in fs_rrmdr; `remove` is the call for a directory.
unfoldable pub remove_child : (List ℕ → Fs → Bool × Fs) → Inode → Fs → Bool × Fs
remove_child remove child fs =
    if child.kind == type_dir then remove (text child.name) fs else fs_delete (text child.name) fs

-- The loop of fs_rrmdr over the inodes.
unfoldable pub remove_loop : (List ℕ → Fs → Bool × Fs) → ℕ → ℕ → ℕ → List ℕ → Fs → Bool × Fs
remove_loop remove zero i idx path fs = (true, fs)
remove_loop remove (suc left) i idx path fs = elim (child_at i idx path fs.disk) [
  | none ↦ remove_loop remove left (i + 1) idx path fs
  | some child ↦
      let (done, fs') = remove_child remove child fs in
      elim done [ true ↦ remove_loop remove left (i + 1) idx path fs' | false ↦ (false, fs') ]
]

-- fs_rrmdr, with the depth of recursion that is left.
unfoldable pub rrmdr : ℕ → List ℕ → Fs → Bool × Fs
rrmdr zero path fs = (false, fs)
rrmdr (suc depth) path fs = elim (removable path fs.disk) [
  | none ↦ (false, fs)
  | some idx ↦
      let (done, fs') = remove_loop (rrmdr depth) max_inodes 0 idx path fs in
      elim done [ true ↦ erase idx fs' | false ↦ (false, fs') ]
]

-- An entry's name is longer than its directory's, and shorter than 128 bytes, so that the
-- recursion never goes deeper than this.
unfoldable pub fs_rrmdr : List ℕ → Fs → Bool × Fs
fs_rrmdr path fs = rrmdr (name_max + 1) path fs
