-- ===== src/Paging/Isolation.antt =====
-- The table that paging_map_private_page writes to, and the translations of a directory around
-- that write.
use gannet_os.Base.{
  ℕ, ◌<◌, ◌≡◌, ◌≢◌, ◌⊎◌, inl, inr, refl, sym, ap, ◌∙◌, Bool, true, not, ◌&&◌, Option, none, some,
  arith, ◌==◌, ==_iff, ==_refl, ==_of_ne, if◌then◌else◌, Bool-cases, Option-cases, set,
}
use gannet_os.Paging.{
  Statics, Words, Paging, entry_at, write_word, is_present, table_of, user_entry,
}
use gannet_os.Paging.Private.{
  find_unowned, table_address, alloc_task_private_table, owner_of, private_table,
}
use gannet_os.Paging.Copies.{IsPage, entry_of_page, user_entry_present, table_of-user_entry}
use gannet_os.Paging.Translate.{
  opens, user_access, opens-user_entry, translate, translate_absent, translate_present, IsDirectory,
  IsPage-table_of, filled, same_slot_translate, other_slot_translate, other_slot, new_entry,
  new_page,
}

module _ (a : Statics) where
  -- The table that a private page is put into, in slot `pd` of the directory.
  pub record Privatised (s : Paging) (dir pd pt : ℕ) (t : Paging) : Type 0 where
    pub page : IsPage pt
    pub not_dir : pt ≢ dir
    pub there : is_present (t.mem (entry_at dir pd)) ≡ true
    pub opened : opens (t.mem (entry_at dir pd)) ≡ true
    pub table : table_of (t.mem (entry_at dir pd)) ≡ pt
    pub alone :
        (pd' : ℕ)
        → pd' < 1024
        → pd ≢ pd'
        → is_present (t.mem (entry_at dir pd')) ≡ true
        → (table_of (t.mem (entry_at dir pd')) ≢ pt) × (table_of (t.mem (entry_at dir pd')) ≢ dir)
    pub kept :
        (pd' k : ℕ) → pd' < 1024 → k < 1024 → translate t.mem dir pd' k ≡ translate s.mem dir pd' k
    pub same_pmm : t.pmm ≡ s.pmm

  pub data TableOutcome (s : Paging) (dir pd : ℕ) (r : Option (ℕ × Paging)) : Type 0 where
    exhausted : r ≡ none → TableOutcome s dir pd r
    ready :
        (pt : ℕ) (t : Paging)
        → r ≡ some (pt, t)
        → Privatised s dir pd pt t
        → TableOutcome s dir pd r

  module _ (s : Paging) (dir pd : ℕ) (d : IsDirectory a s dir) (h : pd < 1024) where
    abbrev pde : ℕ
    pde = s.mem (entry_at dir pd)

    abbrev is_own : Bool
    is_own = is_present pde && (owner_of a s.table_owner 0 (table_of pde) dir == dir)

    own_table : is_own ≡ true → Privatised s dir pd (table_of pde) s
    own_table own = record {
      page = IsPage-table_of a pde;
      not_dir = d.tables_apart pd h (ground arith);
      there = ground arith;
      opened = d.opened pd h (ground arith) (ground arith);
      table = refl;
      alone = λ pd' h' ne there'. (
        λ e. ne (sym (d.sole pd pd' h h' (ground arith) there' (ground arith) e)),
        d.tables_apart pd' h' there',
      );
      kept = λ pd' k h' k'. refl;
      same_pmm = refl;
    }

    -- The state with a new table in the slot.
    abbrev fresh : ℕ → Paging
    fresh i = record s {
      table_owner = set s.table_owner i dir;
      mem =
          write_word (filled a (table_address a i) pde s.mem) (entry_at dir pd)
            (user_entry (table_address a i));
    }

    new_table :
        (i : ℕ)
        → find_unowned s.table_owner 0 ≡ some i
        → Privatised s dir pd (table_address a i) (fresh i)
    new_table i found = record {
      page = new_page a s dir pd i d h found;
      not_dir = d.apart i found;
      there =
          ap is_present (new_entry a s dir pd i d h found)
          ∙ user_entry_present _ (new_page a s dir pd i d h found);
      opened =
          ap opens (new_entry a s dir pd i d h found)
          ∙ opens-user_entry _ (new_page a s dir pd i d h found);
      table =
          ap table_of (new_entry a s dir pd i d h found)
          ∙ table_of-user_entry _ (new_page a s dir pd i d h found);
      alone = λ pd' h' ne there'.
          let same = other_slot a s dir pd i d h found pd' h' ne in
          let before = sym (ap is_present same) ∙ there' in
          (
            λ e. d.owned pd' i h' before found (sym (ap table_of same) ∙ e),
            λ e. d.tables_apart pd' h' before (sym (ap table_of same) ∙ e),
          );
      kept = λ pd' k h' k'. elim (Bool-cases (pd == pd')) [
        | inl here ↦
            ap (λ x. translate (fresh i).mem dir x k) (sym ((==_iff pd pd').0 here))
            ∙ same_slot_translate a s dir pd i d h found k k'
            ∙ ap (λ x. translate s.mem dir x k) ((==_iff pd pd').0 here)
        | inr other ↦ other_slot_translate a s dir pd i d h found pd' k h' k' (λ e. ground arith)
      ];
      same_pmm = refl;
    }

    pub private_table_lem : TableOutcome s dir pd (private_table a dir pd s)
    unfolding private_table alloc_task_private_table filled
    private_table_lem = elim (Bool-cases is_own) [
      | inl own ↦ TableOutcome.ready (table_of pde) s (rw (private_table, own) refl) (own_table own)
      | inr other ↦ elim (Option-cases (find_unowned s.table_owner 0)) [
        | inl full ↦
            TableOutcome.exhausted (rw (private_table, other, alloc_task_private_table, full) refl)
        | inr (i, found) ↦
            TableOutcome.ready (table_address a i) (fresh i)
              (rw (private_table, other, alloc_task_private_table, found) refl) (new_table i found)
      ]
    ]

    -- One entry written in the table of the slot.
    module _ (k : ℕ) (k_in : k < 1024) (pt : ℕ) (t : Paging) (p : Privatised s dir pd pt t)
        (frame : ℕ) (page : IsPage frame) where
      abbrev written : Words
      written = write_word t.mem (entry_at pt k) (user_entry frame)

      directory_kept : (x : ℕ) → x < 1024 → written (entry_at dir x) ≡ t.mem (entry_at dir x)
      directory_kept x q =
          rw
            (==_of_ne (entry_at pt k) (entry_at dir x)
              (entry_of_page pt dir k x p.page d.page k_in q p.not_dir))
            refl

      pub translate-written : translate written dir pd k ≡ some (user_entry frame)
      translate-written =
          translate_present written dir pd k pt (ap is_present (directory_kept pd h) ∙ p.there)
            (ap table_of (directory_kept pd h) ∙ p.table)
          ∙ ap (λ e. if not (is_present e) then none else some e) entry_written
          ∙ ap (λ b. if not b then none else some (user_entry frame))
              (user_entry_present frame page)
        where
          entry_written : written (entry_at pt k) ≡ user_entry frame
          entry_written = rw (==_refl (entry_at pt k)) refl

      pub user_access-written : user_access written dir pd k ≡ true
      unfolding user_access
      user_access-written =
          let same = directory_kept pd h in
          let table : table_of (written (entry_at dir pd)) ≡ pt = ap table_of same ∙ p.table in
          let there : is_present (written (entry_at dir pd)) ≡ true =
            ap is_present same ∙ p.there in
          let open_dir : opens (written (entry_at dir pd)) ≡ true = ap opens same ∙ p.opened in
          let here : written (entry_at (table_of (written (entry_at dir pd))) k)
              ≡ user_entry frame =
            ap (λ x. written (entry_at x k)) table ∙ rw (==_refl (entry_at pt k)) refl in
          let both : (is_present (user_entry frame) && opens (user_entry frame)) ≡ true =
            ap (λ b. b && opens (user_entry frame)) (user_entry_present frame page)
            ∙ opens-user_entry frame page in
          ap
            (λ b.
              b
              && opens (written (entry_at dir pd))
              && (is_present (written (entry_at (table_of (written (entry_at dir pd))) k))
                  && opens (written (entry_at (table_of (written (entry_at dir pd))) k))))
            there
          ∙ ap
              (λ b.
                b
                && (is_present (written (entry_at (table_of (written (entry_at dir pd))) k))
                    && opens (written (entry_at (table_of (written (entry_at dir pd))) k))))
              open_dir
          ∙ ap (λ e. is_present e && opens e) here
          ∙ both

      off_table :
          (table k' : ℕ)
          → IsPage table
          → k' < 1024
          → (table ≢ pt) ⊎ (k ≢ k')
          → written (entry_at table k') ≡ t.mem (entry_at table k')
      off_table table k' q l (inl ne) =
          rw
            (==_of_ne (entry_at pt k) (entry_at table k')
              (entry_of_page pt table k k' p.page q k_in l (λ e. ne (sym e))))
            refl
      off_table table k' q l (inr ne) =
          rw
            (==_of_ne (entry_at pt k) (entry_at table k')
              (λ e. ne (omega (arith, e, p.page.aligned, q.aligned, l, k_in))))
            refl

      apart_from :
          (pd' k' : ℕ)
          → pd' < 1024
          → is_present (t.mem (entry_at dir pd')) ≡ true
          → (pd ≢ pd') ⊎ (k ≢ k')
          → (table_of (t.mem (entry_at dir pd')) ≢ pt) ⊎ (k ≢ k')
      apart_from pd' k' h' there (inl ne) = inl (p.alone pd' h' ne there).0
      apart_from pd' k' h' there (inr ne) = inr ne

      pub others_translate :
          (pd' k' : ℕ)
          → pd' < 1024
          → k' < 1024
          → (pd ≢ pd') ⊎ (k ≢ k')
          → translate written dir pd' k' ≡ translate s.mem dir pd' k'
      others_translate pd' k' h' l ne = elim (Bool-cases (is_present (t.mem (entry_at dir pd')))) [
        | inr absent ↦
            translate_absent written dir pd' k' (ap is_present (directory_kept pd' h') ∙ absent)
            ∙ sym (translate_absent t.mem dir pd' k' absent)
            ∙ p.kept pd' k' h' l
        | inl there ↦
            let table = table_of (t.mem (entry_at dir pd')) in
            translate_present written dir pd' k' table
              (ap is_present (directory_kept pd' h') ∙ there) (ap table_of (directory_kept pd' h'))
            ∙ ap (λ e. if not (is_present e) then none else some e)
                (off_table table k' (IsPage-table_of a _) l (apart_from pd' k' h' there ne))
            ∙ sym (translate_present t.mem dir pd' k' table there refl)
            ∙ p.kept pd' k' h' l
      ]
