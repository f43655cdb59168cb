-- ===== src/Vm.antt =====
-- What the task table asks of the paging code (kernel/arch/x86/paging.h): page directories that are
-- handed out and given back, private pages, and a shared directory entry. `Paging` implements it.
use gannet_os.Base.{ℕ, Bool, true, false, ◌≡◌, ◌≢◌, ◌==◌, if◌then◌else◌}

-- A directory is named by its physical address; 0 stands for failure. `owned` tells which
-- directories are handed out.
pub record Vm : Type 1 where
  pub State : Type 0
  pub kernel_directory : ℕ
  pub clone_directory : State → ℕ × State
  pub map_private_page : ℕ → ℕ → State → ℕ × State
  pub share_pde : ℕ → ℕ → ℕ → State → State
  pub free_private_pages : ℕ → State → State
  pub free_directory : ℕ → State → State
  pub unmap_page : ℕ → State → State
  pub owned : State → ℕ → Bool
  pub clone_fresh :
      (v : State)
      → (clone_directory v).0 ≢ 0
      → (owned v (clone_directory v).0 ≡ false)
        × ((d : ℕ)
            → owned (clone_directory v).1 d
              ≡ (if (clone_directory v).0 == d then true else owned v d))
  pub clone_not_kernel : (v : State) → (clone_directory v).0 ≢ kernel_directory
  pub clone_failed :
      (v : State) → (clone_directory v).0 ≡ 0 → (d : ℕ) → owned (clone_directory v).1 d ≡ owned v d
  pub map_owned : (a p : ℕ) (v : State) (d : ℕ) → owned (map_private_page a p v).1 d ≡ owned v d
  pub share_owned : (a b p : ℕ) (v : State) (d : ℕ) → owned (share_pde a b p v) d ≡ owned v d
  pub free_pages_owned : (a : ℕ) (v : State) (d : ℕ) → owned (free_private_pages a v) d ≡ owned v d
  pub free_directory_owned :
      (a : ℕ) (v : State) (d : ℕ)
      → owned (free_directory a v) d ≡ (if a == d then false else owned v d)
