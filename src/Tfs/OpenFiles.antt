-- ===== src/Tfs/OpenFiles.antt =====
-- The table of open files (p2/fs/state.c).
use mbroker_tfs.Base.{ℕ, false, Option, none, some, update, first, if◌then◌else◌}
use mbroker_tfs.Tfs.State.{
  free, taken, is_free, is_taken, OpenFile, Cmd, done, fault, ◌>>=◌, ◌>>◌, gets, modify,
  always_assert, valid_file_handle,
}

unfoldable pub add_to_open_file_table : ℕ → ℕ → Cmd (Option ℕ)
add_to_open_file_table inumber offset s =
    elim (first (λ h. is_free (s.free_open_file_entries h)) s.fs_params.max_open_files_count) [
      | none ↦ done none s
      | some h ↦ done (some h) (record s {
        free_open_file_entries = update s.free_open_file_entries h taken;
        open_file_table =
            update s.open_file_table h (record { of_inumber = inumber; of_offset = offset });
      })
    ]

unfoldable pub remove_from_open_file_table : Option ℕ → Cmd (Unit {0})
remove_from_open_file_table none = always_assert false
remove_from_open_file_table (some h) = do
  always_assert (← gets (valid_file_handle (some h)))
  always_assert (← gets (λ s. is_taken (s.free_open_file_entries h)))
  modify (λ s. record s { free_open_file_entries = update s.free_open_file_entries h free })

-- `none` is NULL; the pointer is the index of the entry, with what stands there.
unfoldable pub get_open_file_entry : Option ℕ → Cmd (Option (ℕ × OpenFile))
get_open_file_entry none s = done none s
get_open_file_entry (some h) s =
    if valid_file_handle (some h) s
    then if s.mounted
      then if is_taken (s.free_open_file_entries h)
        then done (some (h, s.open_file_table h)) s
        else done none s
      else fault
    else done none s
