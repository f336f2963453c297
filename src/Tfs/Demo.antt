-- ===== src/Tfs/Demo.antt =====
-- A valid file system with one file, `a`, that handle 0 has open.
use mbroker_tfs.Tfs.State.{Params}
use mbroker_tfs.Tfs.Init.Fresh.{IsUsable}
use mbroker_tfs.Base.{
  take, drop, zero, suc, refl, true, some, [], ◌∷◌, replicate, CString, c_str, strlen, arith, ◌==◌,
  if◌then◌else◌, ltb, length, length-replicate, ℕ, ◌≡◌, false,
}
use mbroker_tfs.Tfs.State.{t_file, t_directory, free, taken, bytes, entries, Tfs}
use mbroker_tfs.Tfs.Invariant.{as_bytes, IsInUse, IsHandle, IsValid}
use mbroker_tfs.Tfs.Dir.{cleared_entry}
use mbroker_tfs.Tfs.Dir.Lookup.{Names}

abbrev pub file_a : CString
file_a = b'a' ∷ []

abbrev pub path_a : CString
path_a = b'/' ∷ file_a

abbrev pub path_b : CString
path_b = b'/' ∷ b'b' ∷ []

abbrev pub demo : Tfs
demo = record {
  fs_params = record {
    max_inode_count = 3;
    max_block_count = 3;
    max_open_files_count = 2;
    block_size = 88;
  };
  mounted = true;
  inode_table = λ i.
      if i == 0
      then record { i_node_type = t_directory; i_size = 88; i_data_block = some 0 }
      else record { i_node_type = t_file; i_size = 3; i_data_block = some 1 };
  freeinode_ts = λ i. if ltb i 2 then taken else free;
  fs_data = λ b.
      if b == 0
      then entries
          (λ k. if k == 0 then record { d_name = file_a; d_inumber = some 1 } else cleared_entry)
      else bytes (replicate 88 7);
  free_blocks = λ b. if ltb b 2 then taken else free;
  open_file_table = λ _. record { of_inumber = 1; of_offset = 0 };
  free_open_file_entries = λ h. if h == 0 then taken else free;
}

pub demo-IsValid : IsValid demo
unfolding c_str strlen
demo-IsValid = (
  record {
    mounted = refl;
    block_bound = ground arith;
    some_inode = ground arith;
    some_block = ground arith;
    root_taken = refl;
    root_type = refl;
    root_block = refl;
    root_block_taken = refl;
    root_entries = refl;
    data_bytes = λ b h. ground arith;
    file = λ i u. ground arith;
    apart = λ i j u w x y e. ground arith;
  },
  record {
    in_use = λ k i e. ground arith;
    short = λ k i e. ground arith;
    blank = λ k h e. ground arith;
    files_apart = λ k l i e f. ground arith;
    names_apart = λ k l i j e f g. ground arith;
  },
  record { in_use = λ h o. ground arith; within = λ h o. ground arith },
)

pub demo-IsInUse : IsInUse demo 1
demo-IsInUse = ground arith

pub demo-IsHandle : IsHandle demo 0
demo-IsHandle = ground arith

pub demo-Names : Names demo file_a 1
demo-Names = (0, ground arith, refl)

-- The same with both handles open, at the start of the file
abbrev pub shared : Tfs
shared = record demo { free_open_file_entries = λ _. taken }

pub shared-IsValid : IsValid shared
shared-IsValid = (
  record {
    mounted = refl;
    block_bound = ground arith;
    some_inode = ground arith;
    some_block = ground arith;
    root_taken = refl;
    root_type = refl;
    root_block = refl;
    root_block_taken = refl;
    root_entries = refl;
    data_bytes = demo-IsValid.0.data_bytes;
    file = demo-IsValid.0.file;
    apart = demo-IsValid.0.apart;
  },
  demo-IsValid.1,
  record { in_use = λ h o. ground arith; within = λ h o. ground arith },
)

-- The same with no handle open
abbrev pub quiet : Tfs
quiet = record demo { free_open_file_entries = λ _. free }

pub quiet-IsValid : IsValid quiet
quiet-IsValid = (
  record {
    mounted = refl;
    block_bound = ground arith;
    some_inode = ground arith;
    some_block = ground arith;
    root_taken = refl;
    root_type = refl;
    root_block = refl;
    root_block_taken = refl;
    root_entries = refl;
    data_bytes = demo-IsValid.0.data_bytes;
    file = demo-IsValid.0.file;
    apart = demo-IsValid.0.apart;
  },
  demo-IsValid.1,
  record { in_use = λ h o. ground arith; within = λ h o. ground arith },
)

-- The same with blocks of 2048 bytes
abbrev pub large : Tfs
large = record shared {
  fs_params = record {
    max_inode_count = 3;
    max_block_count = 3;
    max_open_files_count = 2;
    block_size = 2048;
  };
  fs_data = λ b. if b == 0 then shared.fs_data 0 else bytes (replicate 2048 7);
}

large_bytes :
    (b : ℕ)
    → (b == 0) ≡ false
    → (large.fs_data b ≡ bytes (as_bytes (large.fs_data b)))
      × (length (as_bytes (large.fs_data b)) ≡ 2048)
large_bytes b e = rw e (refl, length-replicate {A = ℕ} 2048 7)

pub large-IsValid : IsValid large
unfolding c_str strlen
large-IsValid = (
  record {
    mounted = refl;
    block_bound = ground arith;
    some_inode = ground arith;
    some_block = ground arith;
    root_taken = refl;
    root_type = refl;
    root_block = refl;
    root_block_taken = refl;
    root_entries = refl;
    data_bytes = λ b h. large_bytes b (ground arith);
    file = λ i u. ground arith;
    apart = λ i j u w x y e. ground arith;
  },
  record {
    in_use = λ k i e. ground arith;
    short = λ k i e. ground arith;
    blank = λ k h e. ground arith;
    files_apart = λ k l i e f. ground arith;
    names_apart = λ k l i j e f g. ground arith;
  },
  record { in_use = λ h o. ground arith; within = λ h o. ground arith },
)

-- The parameters of small file systems
abbrev pub params : Params
params = record {
  max_inode_count = 3;
  max_block_count = 3;
  max_open_files_count = 2;
  block_size = 88;
}

pub c_str-zeros : (n m k : ℕ) → c_str (take n (drop k (replicate {A = ℕ} m 0))) ≡ []
unfolding c_str
c_str-zeros zero m zero = refl
c_str-zeros (suc n) zero zero = refl
c_str-zeros (suc n) (suc m) zero = refl
c_str-zeros zero zero (suc k) = refl
c_str-zeros (suc n) zero (suc k) = refl
c_str-zeros n (suc m) (suc k) = c_str-zeros n m k

pub params-IsUsable : IsUsable params
params-IsUsable = record {
  block_bound = ground arith;
  some_inode = ground arith;
  some_block = ground arith;
}
