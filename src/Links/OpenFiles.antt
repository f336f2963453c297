-- ===== src/Links/OpenFiles.antt =====
-- The table of open files with its locks (p1/fs/state.c).
use mbroker_tfs.Base.{
  ℕ, Bool, true, false, ◌&&◌, Option, none, some, update, first, ◌==◌, if◌then◌else◌,
}
use mbroker_tfs.Tfs.State.{free, taken, is_free, is_taken, OpenFile}
use mbroker_tfs.Links.State.{
  Fs, Cmd, done, fault, pure, ◌>>=◌, ◌>>◌, gets, modify, always_assert, valid_file_handle, writing,
  open_file_table_mutex, ftable_lock, lock, unlock,
}

-- The loop found `none` or entry `h`.
unfoldable pub fill_open_file : ℕ → ℕ → Option ℕ → Cmd (Option ℕ)
unfolding lock unlock
fill_open_file inumber offset none = do unlock open_file_table_mutex; pure none
fill_open_file inumber offset (some h) = do
  modify (λ s. record s { free_open_file_entries = update s.free_open_file_entries h taken })
  lock (ftable_lock h) writing
  modify (λ s. record s {
    open_file_table =
        update s.open_file_table h (record { of_inumber = inumber; of_offset = offset });
  })
  unlock (ftable_lock h)
  unlock open_file_table_mutex
  pure (some h)

abbrev pub free_handle : Fs → Option ℕ
free_handle s = first (λ h. is_free (s.free_open_file_entries h)) s.fs_params.max_open_files_count

unfoldable pub add_to_open_file_table : ℕ → ℕ → Cmd (Option ℕ)
unfolding fill_open_file lock unlock
add_to_open_file_table inumber offset = do
  lock open_file_table_mutex writing
  fill_open_file inumber offset (← gets free_handle)

abbrev pub is_open_as : ℕ → Fs → ℕ → Bool
is_open_as inumber s h =
    is_taken (s.free_open_file_entries h) && (s.open_file_table h).of_inumber == inumber

abbrev pub is_found : Option ℕ → Bool
is_found none = false
is_found (some h) = true

unfoldable pub file_is_open : ℕ → Cmd Bool
unfolding lock unlock
file_is_open inumber = do
  lock open_file_table_mutex writing
  found ← gets (λ s. first (is_open_as inumber s) s.fs_params.max_open_files_count)
  unlock open_file_table_mutex
  pure (is_found found)

unfoldable pub remove_from_open_file_table : ℕ → Cmd (Unit {0})
remove_from_open_file_table h = do
  always_assert (← gets (valid_file_handle (some h)))
  always_assert (← gets (λ s. is_taken (s.free_open_file_entries h)))
  modify (λ s. record s { free_open_file_entries = update s.free_open_file_entries h free })

-- `none` is NULL; the pointer is the index of the entry, with what stands there.
unfoldable pub get_open_file_entry : Option ℕ → Cmd (Option (ℕ × OpenFile))
get_open_file_entry none s l = done none s l
get_open_file_entry (some h) s l =
    if valid_file_handle (some h) s
    then if s.mounted
      then if is_taken (s.free_open_file_entries h)
        then done (some (h, s.open_file_table h)) s l
        else done none s l
      else fault
    else done none s l

unfoldable pub close_found : Option (ℕ × OpenFile) → Cmd Bool
unfolding lock unlock
close_found none = do unlock open_file_table_mutex; pure false
close_found (some (h, file)) = do
  lock (ftable_lock h) writing
  remove_from_open_file_table h
  unlock (ftable_lock h)
  unlock open_file_table_mutex
  pure true

-- The result is 0 (`true`) or -1.
unfoldable pub close_entry : Option ℕ → Cmd Bool
unfolding close_found lock unlock
close_entry h = do lock open_file_table_mutex writing; close_found (← get_open_file_entry h)
