-- ===== src/Fs/Lookup.antt =====
-- The searches of filesys/fs.c over the inode table of a sound drive: fs_find, fs_isdir and the
-- search for a free inode.
use gannet_os.Base.{
  ℕ, zero, suc, ◌+◌, ◌≤◌, ◌<◌, ◌≡◌, ◌≢◌, ◌↔◌, refl, ap, ◌∙◌, sym, subst, Bool, true, false, ◌⊎◌,
  inl, inr, List, Option, none, some, ◌==◌, if◌then◌else◌, Bool-cases, arith,
}
use gannet_os.Disk.{Disk, IsSound}
use gannet_os.Fs.{inode_read, max_inodes, type_free, type_dir}
use gannet_os.Fs.Inodes.{inode_at, inode_read_lem}
use gannet_os.Fs.Paths.{str_eq, text, root, find_loop, fs_find, find_free_inode, fs_isdir}
use gannet_os.Fs.Names.{str_eq_iff}

-- The entry that an inode is: its name.
abbrev pub name_at : ℕ → Disk → List ℕ
name_at i d = text (inode_at i d).name

abbrev pub IsUsed : ℕ → Disk → Type 0
IsUsed i d = (inode_at i d).kind ≢ type_free

abbrev pub IsDir : ℕ → Disk → Type 0
IsDir i d = (inode_at i d).kind ≡ type_dir

-- The test of the loop of fs_find.
pub matches : ℕ → List ℕ → Disk → Bool
matches i path d = if (inode_at i d).kind == type_free then false else str_eq (name_at i d) path

pub matches_iff :
    (i : ℕ) (path : List ℕ) (d : Disk)
    → (matches i path d ≡ true) ↔ (IsUsed i d × (name_at i d ≡ path))
unfolding matches
matches_iff i path d = (
  λ h. ground (arith, (str_eq_iff (name_at i d) path).0),
  λ h. ground (arith, (str_eq_iff (name_at i d) path).1),
)

-- The first number from `i` on that passes a test.
pub data First (test : ℕ → Bool) (i bound : ℕ) : Option ℕ → Type 0 where
  nowhere : ((k : ℕ) → i ≤ k → k < bound → test k ≡ false) → First test i bound none
  at :
      (k : ℕ)
      → i ≤ k
      → k < bound
      → test k ≡ true
      → ((j : ℕ) → i ≤ j → j < k → test j ≡ false)
      → First test i bound (some k)

First-step :
    (test : ℕ → Bool) (i bound : ℕ) {r : Option ℕ}
    → test i ≡ false
    → First test (i + 1) bound r
    → First test i bound r
First-step test i bound e (nowhere h) = nowhere λ k p q. elim (Bool-cases (i == k)) [
  | inl same ↦ ap test (let same' : k ≡ i = ground arith in same') ∙ e
  | inr other ↦ h k (ground arith) q
]
First-step test i bound e (at k p q f h) = at k (omega arith) q f λ j p' q'.
    elim (Bool-cases (i == j)) [
      | inl same ↦ ap test (let same' : j ≡ i = ground arith in same') ∙ e
      | inr other ↦ h j (ground arith) q'
    ]

First-if :
    (test : ℕ → Bool) (i bound : ℕ) {r : Option ℕ}
    → i < bound
    → First test (i + 1) bound r
    → First test i bound (if test i then some i else r)
First-if test i bound h f = elim (Bool-cases (test i)) [
  | inl here ↦ rw here (at i (omega arith) h here (λ j p q. absurd (omega arith)))
  | inr other ↦ rw other (First-step test i bound other f)
]

module _ {d : Disk} (sound : IsSound d) where
  pub inode_read_below : (i : ℕ) → i < max_inodes → inode_read i d ≡ some (inode_at i d)
  inode_read_below i h = ground (arith, inode_read_lem sound i)

  find_loop_step :
      (path : List ℕ) (left i : ℕ)
      → i < max_inodes
      → find_loop (suc left) i path d
        ≡ (if matches i path d then some i else find_loop left (i + 1) path d)
  unfolding find_loop matches
  find_loop_step path left i h = ground (arith, inode_read_below i h)

  find_loop-First :
      (path : List ℕ) (left i : ℕ)
      → i + left ≡ max_inodes
      → First (λ k. matches k path d) i max_inodes (find_loop left i path d)
  unfolding find_loop
  find_loop-First path zero i h = nowhere λ k p q. absurd (omega arith)
  find_loop-First path (suc left) i h =
      subst (First (λ k. matches k path d) i max_inodes)
        (sym (find_loop_step path left i (omega arith)))
        (First-if (λ k. matches k path d) i max_inodes (omega arith)
          (find_loop-First path left (i + 1) (omega arith)))

  -- fs_find gives the first inode in use with the path as its name, if there is one.
  pub fs_find-First : (path : List ℕ) → First (λ k. matches k path d) 0 max_inodes (fs_find path d)
  unfolding fs_find
  fs_find-First path = find_loop-First path max_inodes 0 (omega arith)

  find_free_step :
      (left i : ℕ)
      → i < max_inodes
      → find_free_inode (suc left) i d
        ≡ (if (inode_at i d).kind == type_free then some i else find_free_inode left (i + 1) d)
  unfolding find_free_inode
  find_free_step left i h = ground (arith, inode_read_below i h)

  find_free-First :
      (left i : ℕ)
      → i + left ≡ max_inodes
      → First (λ k. (inode_at k d).kind == type_free) i max_inodes (find_free_inode left i d)
  unfolding find_free_inode
  find_free-First zero i h = nowhere λ k p q. absurd (omega arith)
  find_free-First (suc left) i h =
      subst (First (λ k. (inode_at k d).kind == type_free) i max_inodes)
        (sym (find_free_step left i (omega arith)))
        (First-if (λ k. (inode_at k d).kind == type_free) i max_inodes (omega arith)
          (find_free-First left (i + 1) (omega arith)))

  pub find_free_lem :
      First (λ k. (inode_at k d).kind == type_free) 0 max_inodes (find_free_inode max_inodes 0 d)
  find_free_lem = find_free-First max_inodes 0 (omega arith)

pub First-cases :
    {test : ℕ → Bool} {bound : ℕ} {r : Option ℕ}
    → First test 0 bound r
    → ((r ≡ none) × ((k : ℕ) → k < bound → test k ≡ false))
      ⊎ ((k : ℕ) × (r ≡ some k) × (k < bound) × (test k ≡ true))
First-cases (nowhere h) = inl (refl, λ k q. h k (omega arith) q)
First-cases (at k p q f h) = inr (k, refl, q, f)

-- The path names a directory, as parent_exists sees it: the root needs no inode.
abbrev pub HasDir : List ℕ → Disk → Type 0
HasDir path d = (path ≡ root) ⊎ ((k : ℕ) × (k < max_inodes) × IsDir k d × (name_at k d ≡ path))

module _ {d : Disk} (sound : IsSound d) where
  pub fs_find-cases :
      (path : List ℕ)
      → ((fs_find path d ≡ none) × ((k : ℕ) → k < max_inodes → matches k path d ≡ false))
        ⊎ ((k : ℕ) × (fs_find path d ≡ some k) × (k < max_inodes) × (matches k path d ≡ true))
  fs_find-cases path = First-cases (fs_find-First sound path)

  pub fs_isdir-HasDir : (path : List ℕ) → fs_isdir path d ≡ true → HasDir path d
  unfolding fs_isdir
  fs_isdir-HasDir path h = elim (Bool-cases (str_eq path root)) [
    | inl same ↦ inl ((str_eq_iff path root).0 same)
    | inr other ↦ elim (fs_find-cases path) [
      | inl (missing, unmatched) ↦ absurd (ground arith)
      | inr (k, found, below, m) ↦
          inr (
            k,
            below,
            ground (arith, inode_read_below sound k below),
            ((matches_iff k path d).0 m).1,
          )
    ]
  ]
