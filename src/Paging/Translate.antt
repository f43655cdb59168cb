-- ===== src/Paging/Translate.antt =====
-- The walk through a directory to the entry of a page, with the rights of the processor, and the
-- tables of alloc_task_private_table.
use gannet_os.Base.{
  ℕ, ◌<◌, ◌≡◌, ◌≢◌, inl, inr, refl, sym, ap, ◌∙◌, Bool, ◌/◌, ◌%◌, ◌&&◌, true, false, not, Option,
  none, some, arith, ◌==◌, ==_refl, ==_of_ne, if◌then◌else◌, Bool-cases,
}
use gannet_os.Paging.{
  Statics, Words, Paging, entry_at, write_word, is_present, table_of, user_entry, page_entries,
}
use gannet_os.Paging.Boot.{clear_entries}
use gannet_os.Paging.Directories.{copy_entries}
use gannet_os.Paging.Private.{find_unowned, table_address, owner_of}
use gannet_os.Paging.Copies.{
  IsPage, entry_of_page, copy_outside, copy_inside, clear_outside, clear_inside, user_entry_present,
  user_entry_lem, table_of-user_entry,
}

-- The table entry of the page that an address lies in, `none` where an entry on the way is absent.
unfoldable pub translate : Words → (dir pd pt : ℕ) → Option ℕ
translate m dir pd pt =
    let pde = m (entry_at dir pd) in
    let pte = m (entry_at (table_of pde) pt) in
    if not (is_present pde) then none else if not (is_present pte) then none else some pte

-- An entry that lets user code read and write: PAGE_RW and PAGE_USER are set.
abbrev pub opens : ℕ → Bool
opens e = (e / 2 % 2 == 1) && (e / 4 % 2 == 1)

-- Whether user code may read and write the page: the processor wants the rights at both levels.
unfoldable pub user_access : Words → (dir pd pt : ℕ) → Bool
user_access m dir pd pt =
    let pde = m (entry_at dir pd) in
    let pte = m (entry_at (table_of pde) pt) in
    is_present pde && opens pde && (is_present pte && opens pte)

pub opens-user_entry : (e : ℕ) → IsPage e → opens (user_entry e) ≡ true
opens-user_entry e p = ground (arith, user_entry_lem e p, p.aligned)

-- The entry of a table, once it is found.
abbrev pub entry_in : Words → (table pt : ℕ) → Option ℕ
entry_in m table pt =
    let pte = m (entry_at table pt) in if not (is_present pte) then none else some pte

pub translate_absent :
    (m : Words) (dir pd pt : ℕ)
    → is_present (m (entry_at dir pd)) ≡ false
    → translate m dir pd pt ≡ none
unfolding translate
translate_absent m dir pd pt h = rw (translate, h) refl

pub translate_present :
    (m : Words) (dir pd pt table : ℕ)
    → is_present (m (entry_at dir pd)) ≡ true
    → table_of (m (entry_at dir pd)) ≡ table
    → translate m dir pd pt ≡ entry_in m table pt
unfolding translate
translate_present m dir pd pt table h e =
    ap (λ b. if not b then none else entry_in m (table_of (m (entry_at dir pd))) pt) h
    ∙ ap (λ t. entry_in m t pt) e

module _ (a : Statics) where
  -- A directory whose tables are pages of their own, none of them a private table that nobody owns;
  -- a private table of its own stands in one slot only, whose entry is open to user code.
  pub record IsDirectory (s : Paging) (dir : ℕ) : Type 0 where
    pub page : IsPage dir
    pub pool : IsPage a.task_private_tables
    pub apart : (i : ℕ) → find_unowned s.table_owner 0 ≡ some i → table_address a i ≢ dir
    pub tables_apart :
        (pd : ℕ)
        → pd < 1024
        → is_present (s.mem (entry_at dir pd)) ≡ true
        → table_of (s.mem (entry_at dir pd)) ≢ dir
    pub owned :
        (pd i : ℕ)
        → pd < 1024
        → is_present (s.mem (entry_at dir pd)) ≡ true
        → find_unowned s.table_owner 0 ≡ some i
        → table_of (s.mem (entry_at dir pd)) ≢ table_address a i
    pub sole :
        (pd pd' : ℕ)
        → pd < 1024
        → pd' < 1024
        → is_present (s.mem (entry_at dir pd)) ≡ true
        → is_present (s.mem (entry_at dir pd')) ≡ true
        → (owner_of a s.table_owner 0 (table_of (s.mem (entry_at dir pd))) dir == dir) ≡ true
        → table_of (s.mem (entry_at dir pd')) ≡ table_of (s.mem (entry_at dir pd))
        → pd' ≡ pd
    pub opened :
        (pd : ℕ)
        → pd < 1024
        → is_present (s.mem (entry_at dir pd)) ≡ true
        → (owner_of a s.table_owner 0 (table_of (s.mem (entry_at dir pd))) dir == dir) ≡ true
        → opens (s.mem (entry_at dir pd)) ≡ true

  pub IsPage-table_of : (e : ℕ) → IsPage (table_of e)
  IsPage-table_of e = record { aligned = omega arith }

  IsPage-table_address : (i : ℕ) → IsPage a.task_private_tables → IsPage (table_address a i)
  IsPage-table_address i p = record { aligned = omega (arith, p.aligned) }

  -- The memory once a new private table stands in a slot of the directory.
  unfoldable pub filled : (pt pde : ℕ) → Words → Words
  filled pt pde m =
      if is_present pde
      then copy_entries page_entries (table_of pde) pt 0 m
      else clear_entries page_entries pt 0 m

  filled_outside :
      (pt pde : ℕ) (m : Words) (x : ℕ)
      → ((j : ℕ) → j < 1024 → entry_at pt j ≢ x)
      → filled pt pde m x ≡ m x
  unfolding filled
  filled_outside pt pde m x h = elim (Bool-cases (is_present pde)) [
    | inl there ↦ rw there (copy_outside 1024 (table_of pde) pt 0 m x (λ j p q. h j (omega arith)))
    | inr absent ↦ rw absent (clear_outside 1024 pt 0 m x (λ j p q. h j (omega arith)))
  ]

  filled_inside :
      (pt pde : ℕ) (m : Words) (j : ℕ)
      → IsPage pt
      → (is_present pde ≡ true → table_of pde ≢ pt)
      → j < 1024
      → filled pt pde m (entry_at pt j)
        ≡ (if is_present pde then m (entry_at (table_of pde) j) else 0)
  unfolding filled
  filled_inside pt pde m j p ne h = elim (Bool-cases (is_present pde)) [
    | inl there ↦ rw there (
        copy_inside 1024 (table_of pde) pt 0 m j (IsPage-table_of pde) p (ne there) (omega arith)
          (omega arith) (omega arith))
    | inr absent ↦ rw absent (clear_inside 1024 pt 0 m j (omega arith) (omega arith))
  ]

  -- One slot of the directory, and one page of the address space.
  module _ (s : Paging) (dir pd i : ℕ) (d : IsDirectory s dir) (pd_in : pd < 1024)
      (found : find_unowned s.table_owner 0 ≡ some i) where
    abbrev pub new_table : ℕ
    new_table = table_address a i

    abbrev pub old_entry : ℕ
    old_entry = s.mem (entry_at dir pd)

    abbrev pub privatised : Words
    privatised =
        write_word (filled new_table old_entry s.mem) (entry_at dir pd) (user_entry new_table)

    pub new_page : IsPage new_table
    new_page = IsPage-table_address i d.pool

    pub new_entry : privatised (entry_at dir pd) ≡ user_entry new_table
    new_entry = rw (==_refl (entry_at dir pd)) refl

    in_new_table :
        (pt : ℕ)
        → pt < 1024
        → privatised (entry_at new_table pt)
          ≡ (if is_present old_entry then s.mem (entry_at (table_of old_entry) pt) else 0)
    in_new_table pt h =
        rw
          (==_of_ne (entry_at dir pd) (entry_at new_table pt) (
            entry_of_page dir new_table pd pt d.page new_page pd_in h
              (λ e. d.apart i found (sym e))))
          (filled_inside new_table old_entry s.mem pt new_page
            (λ there. d.owned pd i pd_in there found) h)

    elsewhere :
        (table pt : ℕ)
        → IsPage table
        → pt < 1024
        → table ≢ new_table
        → entry_at dir pd ≢ entry_at table pt
        → privatised (entry_at table pt) ≡ s.mem (entry_at table pt)
    elsewhere table pt p h ne off = rw (==_of_ne (entry_at dir pd) (entry_at table pt) off) (
        filled_outside new_table old_entry s.mem (entry_at table pt)
          (λ j q. entry_of_page new_table table j pt new_page p q h (λ e. ne (sym e))))

    pub other_slot :
        (pd' : ℕ) → pd' < 1024 → pd ≢ pd' → privatised (entry_at dir pd') ≡ s.mem (entry_at dir pd')
    other_slot pd' h ne =
        elsewhere dir pd' d.page h (λ e. d.apart i found (sym e)) (λ e. ne (omega (arith, e)))

    pub same_slot_translate :
        (pt : ℕ) → pt < 1024 → translate privatised dir pd pt ≡ translate s.mem dir pd pt
    same_slot_translate pt h =
        translate_present privatised dir pd pt new_table
          (ap is_present new_entry ∙ user_entry_present new_table new_page)
          (ap table_of new_entry ∙ table_of-user_entry new_table new_page)
        ∙ ap (λ e. if not (is_present e) then none else some e) (in_new_table pt h)
        ∙ elim (Bool-cases (is_present old_entry)) [
          | inl there ↦
              rw there (sym (translate_present s.mem dir pd pt (table_of old_entry) there refl))
          | inr absent ↦ rw absent (sym (translate_absent s.mem dir pd pt absent))
        ]

    pub other_slot_translate :
        (pd' pt : ℕ)
        → pd' < 1024
        → pt < 1024
        → pd ≢ pd'
        → translate privatised dir pd' pt ≡ translate s.mem dir pd' pt
    other_slot_translate pd' pt h k ne =
        let kept = other_slot pd' h ne in
        elim (Bool-cases (is_present (s.mem (entry_at dir pd')))) [
          | inr absent ↦
              translate_absent privatised dir pd' pt (ap is_present kept ∙ absent)
              ∙ sym (translate_absent s.mem dir pd' pt absent)
          | inl there ↦
              let table = table_of (s.mem (entry_at dir pd')) in
              translate_present privatised dir pd' pt table (ap is_present kept ∙ there)
                (ap table_of kept)
              ∙ ap (λ e. if not (is_present e) then none else some e)
                  (elsewhere table pt (IsPage-table_of _) k (d.owned pd' i h there found) (
                    entry_of_page dir table pd pt d.page (IsPage-table_of _) pd_in k
                      (λ e. d.tables_apart pd' h there (sym e))))
              ∙ sym (translate_present s.mem dir pd' pt table there refl)
        ]
