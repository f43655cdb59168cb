-- ===== src/Paging/Tests.antt =====
-- A private page in an empty directory, and the pool of directories.
use gannet_os.Base.{ℕ, ◌≡◌, ◌≢◌, refl, true, false, ◌∷◌, arith, replicate, ◌==◌, if◌then◌else◌}
use gannet_os.Pmm.Frames.{IsValid}
use gannet_os.Paging.{Statics, Paging, pd_index, pt_index}
use gannet_os.Paging.Directories.{find_free, clone_kernel_directory}
use gannet_os.Paging.Private.{map_private_page}
use gannet_os.Paging.Translate.{IsDirectory}
use gannet_os.Paging.MapPage.{MapOutcome, map_private_page_lem}
use gannet_os.Paging.Pool.{owned, owned-clone}

abbrev statics : Statics
statics = record {
  page_directory = 0x10000;
  page_tables = 0x20000;
  task_directories = 0x60000;
  task_private_tables = 0x80000;
}

abbrev paging : Paging
paging = record {
  mem = λ a. 0;
  next_free_table = 17;
  directory_used = true ∷ replicate 7 false;
  table_owner = replicate 20 0;
  pmm = record { bitmap = replicate 256 0; memory = λ a. 0 };
}

paging-IsDirectory : IsDirectory statics paging 0x60000
paging-IsDirectory = record {
  page = record { aligned = refl };
  pool = record { aligned = refl };
  apart = λ i found. omega arith;
  tables_apart = λ pd h there. cc;
  owned = λ pd i h there found. cc;
  sole = λ pd pd' h h' there there' own same. cc;
  opened = λ pd h there own. cc;
}

pool-IsValid : IsValid paging.pmm
pool-IsValid = record { words = refl }

map_private_page_lem_example :
    MapOutcome paging 0x60000
      (pd_index 0x40000000)
      (pt_index 0x40000000)
      (map_private_page statics 0x60000 0x40000000 paging)
map_private_page_lem_example =
    map_private_page_lem statics paging 0x60000 0x40000000 paging-IsDirectory pool-IsValid
      (omega arith)

second_slot : (clone_kernel_directory statics paging).0 ≡ 0x61000
unfolding clone_kernel_directory find_free
second_slot = refl

owned-clone_example :
    let (d, t) = clone_kernel_directory statics paging in
    (owned statics paging d ≡ false)
    × ((e : ℕ) → owned statics t e ≡ (if d == e then true else owned statics paging e))
owned-clone_example = owned-clone statics paging second_slot_nonzero
  where
    second_slot_nonzero : (clone_kernel_directory statics paging).0 ≢ 0
    second_slot_nonzero e = omega (arith, e, second_slot)
