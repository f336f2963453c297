-- ===== src/Links/Demo.antt =====
-- Valid file systems with links: a file `a`, and a symbolic link `l` to it.
use mbroker_tfs.Base.{
  refl, true, false, none, some, [], ◌∷◌, ◌++◌, replicate, CString, c_str, strlen, arith, ◌==◌,
  if◌then◌else◌, ltb, total,
}
use mbroker_tfs.Tfs.State.{free, taken, bytes, entries}
use mbroker_tfs.Tfs.Dir.{cleared_entry}
use mbroker_tfs.Tfs.Demo.{file_a, path_a}
use mbroker_tfs.Links.State.{t_file, t_directory, t_symlink, Fs}
use mbroker_tfs.Links.Invariant.{IsValid}
use mbroker_tfs.Links.Init.{Memory}

abbrev pub path_l : CString
path_l = b'/' ∷ b'l' ∷ []

-- Inode 1 is the file, with one byte; inode 2 is the link; inode 3 is free. There is room for three names.
abbrev pub demo : Fs
demo = record {
  fs_params = record {
    max_inode_count = 4;
    max_block_count = 4;
    max_open_files_count = 2;
    block_size = 132;
  };
  mounted = true;
  inode_table = λ i.
      if i == 0
      then record {
        i_node_type = t_directory;
        i_size = 132;
        i_data_block = some 0;
        i_hard_links = 1;
      }
      else if i == 1
      then record { i_node_type = t_file; i_size = 3; i_data_block = some 1; i_hard_links = 1 }
      else record {
        i_node_type = t_symlink;
        i_size = 132;
        i_data_block = some 2;
        i_hard_links = 1;
      };
  freeinode_ts = λ i. if ltb i 3 then taken else free;
  fs_data = λ b.
      if b == 0
      then entries (λ k.
        if k == 0
        then record { d_name = file_a; d_inumber = some 1 }
        else if k == 1
        then record { d_name = b'l' ∷ []; d_inumber = some 2 }
        else cleared_entry)
      else if b == 2
      then bytes (path_a ++ replicate 130 0)
      else bytes (replicate 132 7);
  free_blocks = λ b. if ltb b 3 then taken else free;
  open_file_table = λ _. record { of_inumber = 1; of_offset = 0 };
  free_open_file_entries = λ h. if h == 0 then taken else free;
}

pub demo-IsValid : IsValid demo
unfolding c_str strlen total
demo-IsValid = record {
  store = record {
    mounted = refl;
    block_bound = ground arith;
    some_inode = ground arith;
    some_block = ground arith;
    root_taken = refl;
    root_type = refl;
    root_block = refl;
    root_block_taken = refl;
    root_entries = refl;
    data_bytes = λ b h. ground arith;
    file = λ i u. ground arith;
    target = λ i u t. ground arith;
    apart = λ i j u w x y e. ground arith;
  };
  names = record {
    in_use = λ k i e. ground arith;
    short = λ k i e. ground arith;
    blank = λ k h e. ground arith;
    names_apart = λ k l i j e f g. ground arith;
  };
  counted = λ i u. ground arith;
  opens = record {
    in_use = λ h o. ground arith;
    type = λ h o. ground arith;
    within = λ h o. ground arith;
  };
}

-- The same with no handle open
abbrev pub quiet : Fs
quiet = record demo { free_open_file_entries = λ _. free }

pub quiet-IsValid : IsValid quiet
unfolding c_str strlen total
quiet-IsValid = record {
  store = record {
    mounted = refl;
    block_bound = ground arith;
    some_inode = ground arith;
    some_block = ground arith;
    root_taken = refl;
    root_type = refl;
    root_block = refl;
    root_block_taken = refl;
    root_entries = refl;
    data_bytes = λ b h. ground arith;
    file = λ i u. ground arith;
    target = λ i u t. ground arith;
    apart = λ i j u w x y e. ground arith;
  };
  names = record {
    in_use = λ k i e. ground arith;
    short = λ k i e. ground arith;
    blank = λ k h e. ground arith;
    names_apart = λ k l i j e f g. ground arith;
  };
  counted = λ i u. ground arith;
  opens = record {
    in_use = λ h o. ground arith;
    type = λ h o. ground arith;
    within = λ h o. ground arith;
  };
}

-- The same with every block in use
abbrev pub full : Fs
full = record demo { free_blocks = λ _. taken }

pub full-IsValid : IsValid full
unfolding c_str strlen total
full-IsValid = record {
  store = record {
    mounted = refl;
    block_bound = ground arith;
    some_inode = ground arith;
    some_block = ground arith;
    root_taken = refl;
    root_type = refl;
    root_block = refl;
    root_block_taken = refl;
    root_entries = refl;
    data_bytes = λ b h. ground arith;
    file = λ i u. ground arith;
    target = λ i u t. ground arith;
    apart = λ i j u w x y e. ground arith;
  };
  names = record {
    in_use = λ k i e. ground arith;
    short = λ k i e. ground arith;
    blank = λ k h e. ground arith;
    names_apart = λ k l i j e f g. ground arith;
  };
  counted = λ i u. ground arith;
  opens = record {
    in_use = λ h o. ground arith;
    type = λ h o. ground arith;
    within = λ h o. ground arith;
  };
}

abbrev pub unmounted : Fs
unmounted = record {
  fs_params = record {
    max_inode_count = 0;
    max_block_count = 0;
    max_open_files_count = 0;
    block_size = 0;
  };
  mounted = false;
  inode_table =
      λ _. record { i_node_type = t_file; i_size = 0; i_data_block = none; i_hard_links = 0 };
  freeinode_ts = λ _. free;
  fs_data = λ _. bytes [];
  free_blocks = λ _. free;
  open_file_table = λ _. record { of_inumber = 0; of_offset = 0 };
  free_open_file_entries = λ _. free;
}

abbrev pub zeroed : Memory
zeroed = record {
  inode_table_ok = true;
  others_ok = true;
  ftable_locks_ok = true;
  inodes = λ _. record { i_node_type = t_file; i_size = 0; i_data_block = none; i_hard_links = 0 };
  blocks = λ _. replicate 88 0;
  open_files = λ _. record { of_inumber = 0; of_offset = 0 };
}
