-- ===== src/Osfs/Tests.antt =====
-- Runs of Lab4/Lab4_Template_Done at concrete inputs, and the theorems applied to them.
use fall_oslab.Base.{
  ℕ, suc, ◌+◌, ◌^◌, ◌≤◌, ◌<◌, ◌≡◌, ◌≢◌, ◌⊎◌, refl, none, some, Bool, true, false, List, [], ◌∷◌,
  length, take, drop, arith, sub32, store_bytes, load_bytes, store_u32,
}
use fall_oslab.Kernel.{Inode, Result, ok, err, efault, enospc, eexist, dir_ops}
use fall_oslab.Fixture.{kernel, blank, copy_all, copy_all-IsCopy}
use fall_oslab.Osfs.Types.{SbInfo}
use fall_oslab.Osfs.Inode.{
  find_clear_bit, osfs_get_osfs_inode, osfs_get_free_inode, osfs_alloc_data_block,
}
use fall_oslab.Osfs.File.Changes.{IsOutside, TakesBlock}
use fall_oslab.Osfs.File.Apart.{osfs_write_apart, osfs_write_within}
use fall_oslab.Osfs.File.Errors.{osfs_write_past, osfs_write_enospc}
use fall_oslab.Osfs.Dir.Add.{Adds, osfs_add_dir_entry-Adds}
use fall_oslab.Osfs.Dir.Entries.{
  entries, number_of, looked_up, osfs_lookup_lem, Iterates, start_index, osfs_iterate_lem,
  osfs_iterate_one,
}
use fall_oslab.Osfs.Dir.NewInode.{NewInode, osfs_new_inode-NewInode, osfs_new_inode-IsValid}
use fall_oslab.Osfs.Dir.Find.{osfs_lookup-osfs_create}
use fall_oslab.Osfs.Dir.Leak.{TakesBoth, osfs_create_leaks, osfs_new_inode_counters}
use fall_oslab.Osfs.Inode.Alloc.{
  count_clear, Allocates, take_block, take_inode, osfs_get_free_inode-Allocates,
  osfs_alloc_data_block-Allocates,
}
use fall_oslab.Osfs.Inv.{IsValid}
use fall_oslab.Osfs.File.{osfs_read, osfs_write, write_block, finish_write, ensure_block}
use fall_oslab.Osfs.File.Valid.{osfs_write-IsValid}
use fall_oslab.Osfs.File.Refine.{contents, overwrite, osfs_read_lem, osfs_write_lem}
use fall_oslab.Osfs.Dir.{
  osfs_create, osfs_new_inode, place_inode, attach_block, init_osfs_inode, init_vfs_inode,
  enter_inode, osfs_add_dir_entry, finish_create, find_entry, osfs_lookup, osfs_iterate, DirContext,
  entry_matches, strlen_from, strncmp_eq, write_entry,
}
use fall_oslab.Osfs.Dir.Names.{NulFree}
use fall_oslab.Osfs.Dir.Create.{IsRooted, Creates, osfs_create-Creates}
use fall_oslab.Osfs.Super.{
  SuperBlock, osfs_fill_super, osfs_kill_superblock, fresh_sb_info, init_root_entry,
  init_root_inode,
}
use fall_oslab.Osfs.Super.Mount.{
  mounted, mounted-IsRooted, frees, osfs_fill_super_lem, osfs_kill_superblock-osfs_fill_super,
}

abbrev root_dir : Inode
root_dir = record blank { i_ino = 1; i_mode = 16877; i_ops = dir_ops; i_private = 1 }

abbrev empty_fs : SbInfo
empty_fs = mounted kernel 1 2 blank

-- "a1" and "b"
abbrev name_a : List ℕ
name_a = 97 ∷ 49 ∷ []

abbrev name_b : List ℕ
name_b = 98 ∷ []

abbrev fs_a : SbInfo
fs_a = (osfs_create kernel (some blank) 3 4 true empty_fs root_dir name_a 33188).sb

fs_a_file : ((fs_a.inode_table 2).i_blocks ≡ 1) × ((fs_a.inode_table 2).i_block ≡ 1)
unfolding osfs_create osfs_new_inode osfs_get_free_inode osfs_alloc_data_block find_clear_bit
    place_inode attach_block init_osfs_inode init_vfs_inode enter_inode osfs_add_dir_entry
    finish_create find_entry osfs_get_osfs_inode fresh_sb_info init_root_entry init_root_inode
fs_a_file = (refl, refl)

empty_fs-IsRooted : IsRooted kernel empty_fs 1
empty_fs-IsRooted = mounted-IsRooted kernel 1 2 blank (omega arith)

name_a-NulFree : NulFree name_a
name_a-NulFree = omega arith

name_b-NulFree : NulFree name_b
name_b-NulFree = omega arith

osfs_create-Creates_example :
    Creates kernel empty_fs 1 root_dir name_a
      (osfs_create kernel (some blank) 3 4 true empty_fs root_dir name_a 33188)
osfs_create-Creates_example =
    osfs_create-Creates (some blank) 3 4 root_dir name_a 33188 empty_fs-IsRooted name_a-NulFree

fs_a-IsRooted : IsRooted kernel fs_a 1
fs_a-IsRooted =
    (osfs_create-Creates (some blank) 3 4 root_dir name_a 33188 empty_fs-IsRooted
      name_a-NulFree).rooted

create_a_ok :
    (osfs_create kernel (some blank) 3 4 true empty_fs root_dir name_a 33188).result ≡ ok tt
unfolding osfs_create osfs_new_inode osfs_get_free_inode osfs_alloc_data_block find_clear_bit
    place_inode attach_block init_osfs_inode init_vfs_inode enter_inode osfs_add_dir_entry
    finish_create find_entry osfs_get_osfs_inode fresh_sb_info init_root_entry init_root_inode
create_a_ok = refl

osfs_lookup-osfs_create_example :
    let out = osfs_create kernel (some blank) 3 4 true empty_fs root_dir name_a 33188 in
    (made found : Inode) × (out.dentry ≡ some made)
    × (osfs_lookup kernel out.sb (some blank) out.dir name_a ≡ ok (some found))
    × (found.i_ino ≡ made.i_ino)
    × ((other : List ℕ)
        → other ≢ name_a
        → number_of other (entries kernel out.sb 1) ≡ number_of other (entries kernel empty_fs 1))
osfs_lookup-osfs_create_example =
    osfs_lookup-osfs_create (some blank) 3 4 root_dir name_a 33188 blank empty_fs-IsRooted
      name_a-NulFree create_a_ok

-- The VFS inode of the file "a1".
abbrev file_a : Inode
file_a = record blank { i_ino = 2; i_mode = 33188; i_private = 2 }

has_block : (fs_a.inode_table 2).i_blocks ≢ 0
has_block = λ e. absurd (omega (arith, fs_a_file.0))

osfs_write_lem_example :
    let out = osfs_write kernel copy_all 5 6 fs_a file_a (7 ∷ 8 ∷ 9 ∷ []) 3 0 in
    (out.result ≡ ok 3)
    × (out.pos ≡ 3)
    × (contents kernel out.sb 2 ≡ overwrite 1024 (contents kernel fs_a 2) 0 (7 ∷ 8 ∷ 9 ∷ []))
unfolding copy_all
osfs_write_lem_example =
    osfs_write_lem copy_all 5 6 file_a (7 ∷ 8 ∷ 9 ∷ []) 0 fs_a-IsRooted.valid copy_all-IsCopy
      has_block (omega arith) (omega arith) refl

abbrev fs_w : SbInfo
fs_w = (osfs_write kernel copy_all 5 6 fs_a file_a (7 ∷ 8 ∷ 9 ∷ []) 3 0).sb

osfs_write-IsValid_example : IsValid kernel fs_w
osfs_write-IsValid_example =
    osfs_write-IsValid copy_all 5 6 file_a (7 ∷ 8 ∷ 9 ∷ []) 3 0 fs_a-IsRooted.valid (omega arith)

osfs_read_lem_example :
    let out = osfs_read kernel (λ _. 0) fs_a file_a 2 1 in
    (out.buf ≡ take 2 (drop 1 (contents kernel fs_a 2)))
    × (out.result ≡ ok (length out.buf))
    × (out.pos ≡ 1 + length out.buf)
osfs_read_lem_example =
    osfs_read_lem (λ _. 0) file_a 2 1 fs_a-IsRooted.valid has_block (λ n. refl) (omega arith)

-- The bytes written are read back, from the position asked for.
read_after_write : (osfs_read kernel (λ _. 0) fs_w file_a 100 1).buf ≡ 8 ∷ 9 ∷ []
unfolding osfs_write osfs_read ensure_block finish_write write_block copy_all store_bytes load_bytes
    osfs_create osfs_new_inode osfs_get_free_inode osfs_alloc_data_block find_clear_bit place_inode
    attach_block init_osfs_inode init_vfs_inode enter_inode osfs_add_dir_entry finish_create
    find_entry osfs_get_osfs_inode fresh_sb_info init_root_entry init_root_inode
read_after_write = refl

-- A write to the file leaves the directory's bytes alone, also behind the block's end.
osfs_write_apart_example :
    contents kernel (osfs_write kernel copy_all 5 6 fs_a file_a (7 ∷ []) 1 2000).sb 1
    ≡ contents kernel fs_a 1
osfs_write_apart_example =
    osfs_write_apart 5 6 file_a (7 ∷ []) 1 2000 1 fs_a-IsRooted.valid copy_all-IsCopy (omega arith)
      refl (λ e. absurd (omega arith))

osfs_write_within_example :
    ((q : ℕ) → q ≢ 2 → fs_w.inode_table q ≡ fs_a.inode_table q)
    × ((a : ℕ) → IsOutside kernel fs_w 2 a → fs_w.data_blocks a ≡ fs_a.data_blocks a)
    × TakesBlock 2 fs_a fs_w
osfs_write_within_example =
    osfs_write_within 5 6 file_a (7 ∷ 8 ∷ 9 ∷ []) 3 0 fs_a-IsRooted.valid copy_all-IsCopy
      (omega arith)

osfs_write_past_example :
    osfs_write kernel copy_all 5 6 fs_a file_a (7 ∷ []) 1 2000
    ≡ record { result = err efault; sb = fs_a; inode = file_a; pos = 2000 }
osfs_write_past_example =
    osfs_write_past 5 6 file_a (7 ∷ []) 1 2000 fs_a-IsRooted.valid copy_all-IsCopy has_block
      (omega arith) (omega arith)

osfs_new_inode-NewInode_example :
    NewInode kernel 3 4 root_dir 33188 none fs_a
      (osfs_new_inode kernel none 3 4 fs_a root_dir 33188)
osfs_new_inode-NewInode_example =
    osfs_new_inode-NewInode kernel 3 4 root_dir 33188 none fs_a-IsRooted.valid

new_inode-IsValid : IsValid kernel (osfs_new_inode kernel (some blank) 3 4 fs_a root_dir 33188).0
new_inode-IsValid =
    osfs_new_inode-IsValid kernel 3 4 root_dir 33188 (some blank) fs_a-IsRooted.valid

osfs_add_dir_entry-Adds_example :
    Adds kernel fs_a 1 7 name_b (osfs_add_dir_entry kernel fs_a root_dir 7 name_b)
osfs_add_dir_entry-Adds_example =
    osfs_add_dir_entry-Adds root_dir 7 name_b fs_a-IsRooted.valid fs_a-IsRooted.owns
      fs_a-IsRooted.dir name_b-NulFree (omega arith) (omega arith)

osfs_lookup_lem_example :
    osfs_lookup kernel fs_a (some blank) root_dir name_b
    ≡ looked_up kernel fs_a (some blank) (number_of name_b (entries kernel fs_a 1))
osfs_lookup_lem_example = osfs_lookup_lem kernel fs_a (some blank) root_dir name_b name_b-NulFree

-- dir_emit_dots at position 0, with an actor that takes both names
abbrev dots : DirContext → DirContext × Bool
dots ctx = (record ctx { pos = 2 }, true)

abbrev at : ℕ → DirContext
at p = record { pos = p; emitted = [] }

osfs_iterate_lem_example :
    let i = start_index 2 in
    let r = osfs_iterate kernel dots (λ _ _. true) fs_a root_dir (at 0) in
    ((i < 2 ^ 31)
      × (out : DirContext × Result (Unit {0})) × (r ≡ some out)
      × Iterates (λ _ _. true) (drop i (entries kernel fs_a 1)) (at 2) out)
    ⊎ ((2 ^ 31 ≤ i) × (r ≡ none))
osfs_iterate_lem_example =
    osfs_iterate_lem kernel dots (λ _ _. true) fs_a root_dir (at 0) (at 2) refl (omega arith)
      (omega arith)

iterate_at_one : osfs_iterate kernel dots (λ _ _. true) fs_a root_dir (at 1) ≡ none
iterate_at_one = osfs_iterate_one kernel dots (λ _ _. true) fs_a root_dir (at 1) refl

lowest_block_taken :
    Allocates take_block fs_a.block_bitmap 0 fs_a.block_count fs_a (osfs_alloc_data_block fs_a)
lowest_block_taken = osfs_alloc_data_block-Allocates fs_a

lowest_inode_taken :
    Allocates take_inode empty_fs.inode_bitmap 1 empty_fs.inode_count empty_fs
      (osfs_get_free_inode empty_fs)
unfolding fresh_sb_info init_root_entry
lowest_inode_taken = osfs_get_free_inode-Allocates empty_fs (omega arith)

abbrev unmounted : SuperBlock
unmounted = record { s_magic = 0; s_fs_info = none; s_root = none; vfree_calls = 0; iput_calls = 0 }

osfs_fill_super_lem_example :
    let (s', r) = osfs_fill_super kernel true (some blank) 1 2 true unmounted in
    (r ≡ ok tt)
    × ((sb : SbInfo) × (s'.s_fs_info ≡ some sb)
        × IsRooted kernel sb 1
        × (entries kernel sb 1 ≡ [])
        × (sb.nr_free_blocks ≡ 19))
    × (s'.vfree_calls ≡ 0)
osfs_fill_super_lem_example = osfs_fill_super_lem kernel blank 1 2 unmounted (omega arith)

-- d_make_root fails.
osfs_kill_superblock-osfs_fill_super_example :
    let (s', r) = osfs_fill_super kernel true (some blank) 1 2 false unmounted in
    ((osfs_kill_superblock s').vfree_calls ≡ frees true r)
    × ((osfs_kill_superblock s').s_fs_info ≡ none)
osfs_kill_superblock-osfs_fill_super_example =
    osfs_kill_superblock-osfs_fill_super kernel true (some blank) 1 2 false unmounted refl refl

create_twice :
    (osfs_create kernel (some blank) 3 4 true fs_a root_dir name_a 33188).result ≡ err eexist
unfolding osfs_create osfs_new_inode osfs_get_free_inode osfs_alloc_data_block find_clear_bit
    place_inode attach_block init_osfs_inode init_vfs_inode enter_inode osfs_add_dir_entry
    finish_create find_entry osfs_get_osfs_inode fresh_sb_info init_root_entry init_root_inode
    entry_matches strlen_from strncmp_eq write_entry store_bytes store_u32
create_twice = refl

osfs_create_leaks_example :
    TakesBoth fs_a (osfs_create kernel (some blank) 3 4 true fs_a root_dir name_a 33188).sb
osfs_create_leaks_example =
    osfs_create_leaks (some blank) 3 4 root_dir name_a 33188 fs_a-IsRooted name_a-NulFree
      create_twice

abbrev made_b : Inode
made_b = record (init_vfs_inode kernel 3 blank root_dir 33188 2) { i_private = 2 }

counted_twice :
    let sb' = (osfs_new_inode kernel (some blank) 3 4 empty_fs root_dir 33188).0 in
    (sb'.nr_free_inodes ≡ sub32 (sub32 empty_fs.nr_free_inodes 1) 1)
    × (suc (count_clear sb'.inode_bitmap 19 1) ≡ count_clear empty_fs.inode_bitmap 19 1)
unfolding osfs_new_inode osfs_get_free_inode osfs_alloc_data_block find_clear_bit place_inode
    attach_block osfs_get_osfs_inode fresh_sb_info init_root_entry
counted_twice =
    osfs_new_inode_counters (some blank) 3 4 root_dir made_b 33188 empty_fs-IsRooted.valid refl

-- Every block taken, and a file with no block.
abbrev full_fs : SbInfo
full_fs = record empty_fs { nr_free_blocks = 0; block_bitmap = λ _. true }

full_fs-IsValid : IsValid kernel full_fs
unfolding fresh_sb_info init_root_entry count_clear
full_fs-IsValid = record {
  block_size_eq = refl;
  block_size_le = omega arith;
  inode_count_eq = refl;
  block_count_eq = refl;
  counted = refl;
  root_taken = refl;
  owned = λ p h. ground (arith, empty_fs-IsRooted.valid.owned p h);
  apart = λ p q hp hq ne. empty_fs-IsRooted.valid.apart p q hp hq ne;
  sized = empty_fs-IsRooted.valid.sized;
}

full_region :
    osfs_write kernel copy_all 5 6 full_fs file_a (7 ∷ []) 1 0
    ≡ record { result = err enospc; sb = full_fs; inode = file_a; pos = 0 }
unfolding fresh_sb_info init_root_entry
full_region = osfs_write_enospc copy_all 5 6 file_a (7 ∷ []) 1 0 full_fs-IsValid refl (λ b h. refl)
