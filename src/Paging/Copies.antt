-- ===== src/Paging/Copies.antt =====
-- Memory under the loops that fill a table, and the entry that a private page gets.
use gannet_os.Base.{
  ℕ, zero, suc, ◌+◌, ◌*◌, ◌/◌, ◌%◌, ◌^◌, ◌≤◌, ◌<◌, ◌≡◌, ◌≢◌, inl, inr, refl, sym, ap, ◌∙◌, true,
  arith, ◌==◌, ==_iff, ==_of_ne, Bool-cases, bit_or, bit_or-add, bit_or-split,
}
use gannet_os.Paging.{Words, entry_at, write_word, user_entry, is_present, table_of}
use gannet_os.Paging.Boot.{clear_entries}
use gannet_os.Paging.Directories.{copy_entries}

-- Two pages, by their addresses.
pub record IsPage (p : ℕ) : Type 0 where
  pub aligned : p % 4096 ≡ 0

==_of_eq : (x y : ℕ) → x ≡ y → (x == y) ≡ true
==_of_eq x y e = (==_iff x y).1 e

-- Entries of different pages, or of different indices, have different addresses.
pub entry_of_page :
    (p q i j : ℕ) → IsPage p → IsPage q → i < 1024 → j < 1024 → p ≢ q → entry_at p i ≢ entry_at q j
entry_of_page p q i j a b h k ne e = ne (omega (arith, a.aligned, b.aligned))

pub copy_outside :
    (n from to i : ℕ) (m : Words) (x : ℕ)
    → ((j : ℕ) → i ≤ j → j < i + n → entry_at to j ≢ x)
    → copy_entries n from to i m x ≡ m x
unfolding copy_entries
copy_outside zero from to i m x h = refl
copy_outside (suc n) from to i m x h =
    copy_outside n from to (i + 1) (write_word m (entry_at to i) (m (entry_at from i))) x
      (λ j p q. h j (omega arith) (omega arith))
    ∙ rw (==_of_ne (entry_at to i) x (h i (omega arith) (omega arith))) refl

pub copy_inside :
    (n from to i : ℕ) (m : Words) (j : ℕ)
    → IsPage from
    → IsPage to
    → from ≢ to
    → i + n ≤ 1024
    → i ≤ j
    → j < i + n
    → copy_entries n from to i m (entry_at to j) ≡ m (entry_at from j)
unfolding copy_entries
copy_inside zero from to i m j f t ne size lo hi = absurd (omega arith)
copy_inside (suc n) from to i m j f t ne size lo hi = elim (Bool-cases (i == j)) [
  | inl here ↦
      let same : i ≡ j = ground arith in
      copy_outside n from to (i + 1) written (entry_at to j) (λ k p q e. omega (arith, e, same))
      ∙ rw (==_of_eq (entry_at to i) (entry_at to j) (omega (arith, same)))
          (ap (λ k. m (entry_at from k)) same)
  | inr later ↦
      copy_inside n from to (i + 1) written j f t ne (omega (arith, size)) (ground arith)
        (omega arith)
      ∙ rw
          (==_of_ne (entry_at to i) (entry_at from j) (λ e.
            entry_of_page from to j i f t (omega (arith, size)) (omega (arith, size)) ne (sym e)))
          refl
]
  where
    written : Words
    written = write_word m (entry_at to i) (m (entry_at from i))

pub clear_outside :
    (n to i : ℕ) (m : Words) (x : ℕ)
    → ((j : ℕ) → i ≤ j → j < i + n → entry_at to j ≢ x)
    → clear_entries n to i m x ≡ m x
unfolding clear_entries
clear_outside zero to i m x h = refl
clear_outside (suc n) to i m x h =
    clear_outside n to (i + 1) (write_word m (entry_at to i) 0) x
      (λ j p q. h j (omega arith) (omega arith))
    ∙ rw (==_of_ne (entry_at to i) x (h i (omega arith) (omega arith))) refl

pub clear_inside :
    (n to i : ℕ) (m : Words) (j : ℕ)
    → i ≤ j
    → j < i + n
    → clear_entries n to i m (entry_at to j) ≡ 0
unfolding clear_entries
clear_inside zero to i m j lo hi = absurd (omega arith)
clear_inside (suc n) to i m j lo hi = elim (Bool-cases (i == j)) [
  | inl here ↦
      let same : i ≡ j = ground arith in
      clear_outside n to (i + 1) (write_word m (entry_at to i) 0) (entry_at to j)
        (λ k p q e. omega (arith, e, same))
      ∙ rw (==_of_eq (entry_at to i) (entry_at to j) (omega (arith, same))) refl
  | inr later ↦
      clear_inside n to (i + 1) (write_word m (entry_at to i) 0) j (ground arith) (omega arith)
]

-- The three flags of a private entry do not touch the address.
pub user_entry_lem : (e : ℕ) → IsPage e → user_entry e ≡ e + 7
user_entry_lem e a =
    let q : ℕ = e / 4096 in
    let whole : e ≡ q * 2 ^ 12 = omega (arith, a.aligned) in
    ap (λ x. bit_or (bit_or (bit_or x 1) 2) 4) whole
    ∙ ap (λ x. bit_or (bit_or x 2) 4) (bit_or-add 12 q 1 (omega arith))
    ∙ ap (λ x. bit_or x 4) (bit_or-split 12 q 1 2 (omega arith) (omega arith))
    ∙ bit_or-split 12 q 3 4 (omega arith) (omega arith)
    ∙ omega (arith, whole)

pub user_entry_present : (e : ℕ) → IsPage e → is_present (user_entry e) ≡ true
user_entry_present e a = ground (arith, user_entry_lem e a, a.aligned)

pub table_of-user_entry : (e : ℕ) → IsPage e → table_of (user_entry e) ≡ e
table_of-user_entry e a = omega (arith, user_entry_lem e a, a.aligned)
