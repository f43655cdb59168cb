-- ===== src/Fs/Mount/Format.antt =====
-- The format of a fresh drive by fs_init, filesys/fs.c.
use gannet_os.Base.{
  ℕ, ◌+◌, ◌-◌, ◌<◌, ◌≡◌, ◌≢◌, refl, ap, ◌∙◌, sym, subst, Bool, true, false, ◌&&◌, ltb, leb, length,
  length-replicate, replicate, arith,
}
use gannet_os.Disk.{Disk, IsSound, put_sector}
use gannet_os.Net.Bytes.{load32, store32}
use gannet_os.Bitmap.{test, test-replicate}
use gannet_os.Fs.{
  Fs, Inode, inode_sector, inode_start, inode_sectors, data_start, max_inodes, super_sector,
  total_sectors, bitmap_words, magic, type_dir, zero_inode,
}
use gannet_os.Fs.Inodes.{
  inode_at, put_inode, inode_at-zeros, sectors-put_inode, put_sector-IsSound, read_sector_lem,
  write_sector_lem, inode_write_lem,
}
use gannet_os.Fs.Paths.{root, text, str_copy, copy_text}
use gannet_os.Fs.Lookup.{name_at, IsDir}
use gannet_os.Fs.Files.{named, inode_store}
use gannet_os.Fs.Tree.{named-IsInode}
use gannet_os.Fs.Tree.Changes.{IsWell}
use gannet_os.Fs.Layout.Ready.{IsLaidOut}
use gannet_os.Fs.Mount.{
  super_bytes, zero_sector, zero_inodes, root_inode, format_inodes, format, close_all, fs_init,
}
use gannet_os.Fs.Mount.Blank.{
  Zeroed, sectors-put_sector, zero_inodes_lem, IsBlank, root-IsWell, root_self, root_others,
  root-IsLaid,
}

root_name : text (named root type_dir).name ≡ root
unfolding text named str_copy copy_text zero_inode
root_name = refl

root_kind : (named root type_dir).kind ≡ type_dir
unfolding named
root_kind = refl

root_count : (named root type_dir).block_count ≡ 0
unfolding named zero_inode
root_count = refl

super_magic : load32 super_bytes 0 ≡ magic
unfolding load32 super_bytes store32
super_magic = refl

super_total : load32 super_bytes 16 ≡ total_sectors - data_start
unfolding load32 super_bytes store32
super_total = refl

module _ (start : Fs) (sound : IsSound start.disk) where
  abbrev fs : Fs
  fs = record start { fds = close_all start.fds }

  abbrev with_super : Disk
  with_super = put_sector super_sector super_bytes start.disk

  length-super_bytes : length super_bytes ≡ 512
  unfolding super_bytes store32
  length-super_bytes = refl

  with_super_sound : IsSound with_super
  with_super_sound = put_sector-IsSound sound super_sector super_bytes length-super_bytes

  abbrev cleared : Bool × Disk
  cleared = zero_inodes inode_sectors inode_start with_super

  zeroed : Zeroed inode_sectors inode_start with_super cleared
  zeroed = zero_inodes_lem inode_sectors inode_start with_super with_super_sound

  cleared-IsBlank : IsBlank cleared.1
  unfolding zero_sector
  cleared-IsBlank i p =
      inode_at-zeros i cleared.1 (zeroed.sectors (inode_sector i) ∙ rw (in_table i p) refl)
    where
      in_table :
          (i : ℕ)
          → i < max_inodes
          → (leb inode_start (inode_sector i) && ltb (inode_sector i) (inode_start + inode_sectors))
            ≡ true
      in_table i p = ground arith

  abbrev formatted : Fs
  formatted = record fs {
    disk = put_inode 0 (named root type_dir) cleared.1;
    data_sector_count = total_sectors - data_start;
    alloc_bitmap = replicate bitmap_words 0;
  }

  root_stored : inode_store 0 root_inode cleared.1 ≡ put_inode 0 (named root type_dir) cleared.1
  unfolding inode_store root_inode named
  root_stored = ground (arith, inode_write_lem zeroed.sound 0 (named root type_dir))

  format_inodes_lem : format_inodes with_super fs ≡ (true, formatted)
  unfolding format_inodes
  format_inodes_lem = rw zeroed.done (
      ap
        (λ (d : Disk).
          let out : Bool × Fs = (
            true,
            record fs {
              disk = d;
              data_sector_count = total_sectors - data_start;
              alloc_bitmap = replicate bitmap_words 0;
            },
          ) in
          out)
        root_stored)

  format_lem : format fs ≡ (true, formatted)
  unfolding format
  format_lem = ground (arith, write_sector_lem sound super_sector super_bytes, format_inodes_lem)

  super_stays : formatted.disk.sectors super_sector ≡ super_bytes
  super_stays =
      sectors-put_inode zeroed.sound 0 (named-IsInode root type_dir (omega arith)) super_sector
        (λ e. absurd (omega arith))
      ∙ zeroed.sectors super_sector
      ∙ sectors-put_sector start.disk super_sector super_bytes super_sector

  abbrev Formatted : Bool × Fs → Type 0
  Formatted r =
      (r.0 ≡ true)
      × IsWell r.1.disk
      × IsLaidOut r.1
      × (name_at 0 r.1.disk ≡ root)
      × IsDir 0 r.1.disk
      × ((inode_at 0 r.1.disk).block_count ≡ 0)
      × ((j : ℕ) → j < max_inodes → j ≢ 0 → inode_at j r.1.disk ≡ zero_inode)
      × (load32 (r.1.disk.sectors super_sector) 0 ≡ magic)
      × (load32 (r.1.disk.sectors super_sector) 16 ≡ r.1.data_sector_count)
      × (r.1.data_sector_count ≡ total_sectors - data_start)
      × ((j : ℕ) → j < r.1.data_sector_count → test r.1.alloc_bitmap j ≡ false)

  init_format :
      load32 (start.disk.sectors super_sector) 0 ≢ magic → fs_init start ≡ (true, formatted)
  unfolding fs_init
  init_format other = ground (arith, read_sector_lem sound super_sector, format_lem)

  -- Where the super block of a drive without faults does not hold the magic number, `fs_init`
  -- formats the drive and succeeds: it leaves a directory tree of the root alone, every other inode
  -- cleared, the super block that the next `fs_init` expects, and all data sectors free.
  pub fs_init_lem :
      load32 (start.disk.sectors super_sector) 0 ≢ magic
      → ((fs_init start).0 ≡ true)
        × IsWell (fs_init start).1.disk
        × IsLaidOut (fs_init start).1
        × (name_at 0 (fs_init start).1.disk ≡ root)
        × IsDir 0 (fs_init start).1.disk
        × ((inode_at 0 (fs_init start).1.disk).block_count ≡ 0)
        × ((j : ℕ) → j < max_inodes → j ≢ 0 → inode_at j (fs_init start).1.disk ≡ zero_inode)
        × (load32 ((fs_init start).1.disk.sectors super_sector) 0 ≡ magic)
        × (load32 ((fs_init start).1.disk.sectors super_sector) 16
            ≡ (fs_init start).1.data_sector_count)
        × ((fs_init start).1.data_sector_count ≡ total_sectors - data_start)
        × ((j : ℕ)
            → j < (fs_init start).1.data_sector_count
            → test (fs_init start).1.alloc_bitmap j ≡ false)
  fs_init_lem other = subst Formatted (sym (init_format other)) all
    where
      all : Formatted (true, formatted)
      all = (
        refl,
        root-IsWell cleared.1 zeroed.sound cleared-IsBlank,
        root-IsLaid cleared.1 zeroed.sound cleared-IsBlank _
            (length-replicate {A = ℕ} bitmap_words 0),
        ap (λ (m : Inode). text m.name) (root_self cleared.1 zeroed.sound cleared-IsBlank)
            ∙ root_name,
        ap Inode.kind (root_self cleared.1 zeroed.sound cleared-IsBlank) ∙ root_kind,
        ap Inode.block_count (root_self cleared.1 zeroed.sound cleared-IsBlank) ∙ root_count,
        root_others cleared.1 zeroed.sound cleared-IsBlank,
        ap (λ s. load32 s 0) super_stays ∙ super_magic,
        ap (λ s. load32 s 16) super_stays ∙ super_total,
        refl,
        λ j p. test-replicate bitmap_words j (omega arith),
      )
