-- ===== src/Paging.antt =====
-- Page tables and page directories, kernel/arch/x86/paging.c. Directories and tables are words of
-- the physical memory, found by their addresses as the processor finds them. What the module keeps
-- beside them are its pools. The addresses of its static arrays are parameters.
pub mod Boot
pub mod Private
pub mod Directories
pub mod Copies
pub mod Translate
pub mod Isolation
pub mod MapPage
pub mod Pool
pub mod AsVm
mod Tests
use gannet_os.Base.{
  ℕ, zero, suc, ◌+◌, ◌-◌, ◌*◌, ◌/◌, ◌%◌, ◌^◌, Bool, true, false, not, ◌&&◌, Option, none, some,
  List, [], ◌∷◌, ◌==◌, if◌then◌else◌, bit_or, replicate,
}
use gannet_os.Pmm.{Pmm}

abbrev pub page_size : ℕ
page_size = 4096

abbrev pub page_entries : ℕ
page_entries = 1024

abbrev pub page_present : ℕ
page_present = 1

abbrev pub page_rw : ℕ
page_rw = 2

abbrev pub page_user : ℕ
page_user = 4

abbrev pub paging_identity_low_bytes : ℕ
paging_identity_low_bytes = 64 * 1024 * 1024

abbrev pub max_static_page_tables : ℕ
max_static_page_tables = 32

abbrev pub max_task_directories : ℕ
max_task_directories = 8

abbrev pub max_task_private_tables : ℕ
max_task_private_tables = 20

-- Where the linker puts the static arrays.
pub record Statics : Type 0 where
  pub page_directory : ℕ
  pub page_tables : ℕ
  pub task_directories : ℕ
  pub task_private_tables : ℕ

-- A word of memory by its byte address.
abbrev pub Words : Type 0
Words = ℕ → ℕ

pub record Paging : Type 0 where
  pub mem : Words
  pub next_free_table : ℕ
  pub directory_used : List Bool
  pub table_owner : List ℕ
  pub pmm : Pmm

-- `((pde_t *)dir)[i]` and the assignment to it.
abbrev pub entry_at : ℕ → ℕ → ℕ
entry_at table i = table + 4 * i

abbrev pub write_word : Words → ℕ → ℕ → Words
write_word m a v x = if a == x then v else m x

abbrev pub set_entry : Paging → (table i v : ℕ) → Paging
set_entry s table i v = record s { mem = write_word s.mem (entry_at table i) v }

-- `e & PAGE_PRESENT`
abbrev pub is_present : ℕ → Bool
is_present e = e % 2 == 1

-- `e & ~0xFFFu`
abbrev pub table_of : ℕ → ℕ
table_of e = e / 4096 * 4096

-- `addr >> 22` and `(addr >> 12) & 0x3FF`
abbrev pub pd_index : ℕ → ℕ
pd_index addr = addr / 2 ^ 22

abbrev pub pt_index : ℕ → ℕ
pt_index addr = addr / 2 ^ 12 % 1024

-- `e | PAGE_PRESENT | PAGE_RW | PAGE_USER`
abbrev pub user_entry : ℕ → ℕ
user_entry e = bit_or (bit_or (bit_or e page_present) page_rw) page_user
