-- ===== src/Disk.antt =====
-- The drive as filesys/fs.c sees it through ata_read_sector and ata_write_sector: 512-byte sectors
-- by number, any of which may refuse to be read or written. ata.c gives up only before it
-- transfers data, so that a write which fails changes nothing.
use gannet_os.Base.{ℕ, ◌≡◌, Bool, true, List, Option, none, some, ◌==◌, if◌then◌else◌, length}

pub record Disk : Type 0 where
  pub sectors : ℕ → List ℕ
  pub can_read : ℕ → Bool
  pub can_write : ℕ → Bool

abbrev pub sector_size : ℕ
sector_size = 512

unfoldable pub read_sector : ℕ → Disk → Option (List ℕ)
read_sector lba d = if d.can_read lba then some (d.sectors lba) else none

unfoldable pub put_sector : ℕ → List ℕ → Disk → Disk
put_sector lba buf d = record d { sectors = λ l. if l == lba then buf else d.sectors l }

-- `none` is the result -1.
unfoldable pub write_sector : ℕ → List ℕ → Disk → Option Disk
unfolding put_sector
write_sector lba buf d = if d.can_write lba then some (put_sector lba buf d) else none

-- A drive without faults, whose sectors are whole.
pub record IsSound (d : Disk) : Type 0 where
  pub readable : (l : ℕ) → d.can_read l ≡ true
  pub writable : (l : ℕ) → d.can_write l ≡ true
  pub whole : (l : ℕ) → length (d.sectors l) ≡ sector_size
