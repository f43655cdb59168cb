-- ===== src/Fs/Paths.antt =====
-- Names of files: the string helpers of filesys/fs.c, fs_get_parent, and the search fs_find.
use gannet_os.Base.{
  ℕ, zero, suc, ◌+◌, ◌-◌, Bool, true, false, List, [], ◌∷◌, Option, none, some, ◌==◌, if◌then◌else◌,
  take,
}
use gannet_os.Disk.{Disk}
use gannet_os.Fs.{type_free, type_dir, inode_read, max_inodes}

-- On two strings.
unfoldable pub str_eq : List ℕ → List ℕ → Bool
str_eq (x ∷ a) (y ∷ b) = if x == y then str_eq a b else false
str_eq [] [] = true
str_eq [] (y ∷ b) = false
str_eq (x ∷ a) [] = false

-- The string that an array holds: its bytes in front of the first 0.
unfoldable pub text : List ℕ → List ℕ
text [] = []
text (c ∷ cs) = let rest = text cs in if c == 0 then [] else c ∷ rest

-- The loop of str_copy into an array, with the number of characters that fit, and the terminator.
unfoldable pub copy_text : ℕ → List ℕ → List ℕ → List ℕ
copy_text left [] s = []
copy_text zero (x ∷ d) s = 0 ∷ d
copy_text (suc left) (x ∷ d) [] = 0 ∷ d
copy_text (suc left) (x ∷ d) (c ∷ s) = c ∷ copy_text left d s

unfoldable pub str_copy : List ℕ → List ℕ → ℕ → List ℕ
str_copy d s max = copy_text (max - 1) d s

abbrev pub slash : ℕ
slash = b'/'

abbrev pub root : List ℕ
root = slash ∷ []

-- The loop for the last slash: `i` is the position of the next character.
unfoldable pub last_slash : List ℕ → ℕ → ℕ → ℕ
last_slash [] i last = last
last_slash (c ∷ cs) i last = last_slash cs (i + 1) (if c == slash then i else last)

-- The parent, as the string that is left in `parent_out`.
unfoldable pub fs_get_parent : List ℕ → List ℕ
fs_get_parent path = let last = last_slash path 0 0 in if last == 0 then root else take last path

-- The loop of fs_find, with the number of inodes left.
unfoldable pub find_loop : ℕ → ℕ → List ℕ → Disk → Option ℕ
find_loop zero i path d = none
find_loop (suc left) i path d =
    let rest = find_loop left (i + 1) path d in
    elim (inode_read i d) [
      | none ↦ rest
      | some inode ↦
          if inode.kind == type_free
          then rest
          else if str_eq (text inode.name) path
          then some i
          else rest
    ]

unfoldable pub fs_find : List ℕ → Disk → Option ℕ
fs_find path d = find_loop max_inodes 0 path d

unfoldable pub fs_isdir : List ℕ → Disk → Bool
fs_isdir path d = if str_eq path root then true else elim (fs_find path d) [
  | none ↦ false
  | some idx ↦ elim (inode_read idx d) [ none ↦ false | some inode ↦ inode.kind == type_dir ]
]

-- `parent` is a buffer of 128 bytes; the model has its string, of any length.
unfoldable pub parent_exists : List ℕ → Disk → Bool
parent_exists path d = fs_isdir (fs_get_parent path) d

-- The search for an inode that is not in use, with the number of inodes left.
unfoldable pub find_free_inode : ℕ → ℕ → Disk → Option ℕ
find_free_inode zero i d = none
find_free_inode (suc left) i d =
    let rest = find_free_inode left (i + 1) d in
    elim (inode_read i d) [
      | none ↦ rest
      | some inode ↦ if inode.kind == type_free then some i else rest
    ]
