-- ===== src/Osfs/Super/Mount.antt =====
-- Mounting and unmounting: what osfs_fill_super sets up, and how often the region is freed.
use fall_oslab.Base.{ℕ, ◌≤◌, ◌≡◌, refl, Option, none, some, Bool, true, false, arith, []}
use fall_oslab.Kernel.{Kernel, Result, ok, err, Inode, Timespec}
use fall_oslab.Osfs.Types.{SbInfo, root_inode}
use fall_oslab.Osfs.Inode.{osfs_get_osfs_inode}
use fall_oslab.Osfs.Inode.Alloc.{
  osfs_get_osfs_inode_lem, count_clear, count_clear-set, count_clear_all,
}
use fall_oslab.Osfs.Inv.{IsValid}
use fall_oslab.Osfs.Dir.Entries.{entries, entries_none}
use fall_oslab.Osfs.Dir.Create.{IsRooted}
use fall_oslab.Osfs.Super.{
  SuperBlock, fresh_sb_info, init_root_inode, init_root_entry, osfs_fill_super,
  osfs_kill_superblock,
}

-- The region that a successful mount leaves.
abbrev pub mounted : Kernel → (now now' : Timespec) → Inode → SbInfo
mounted k now now' blank =
    init_root_entry (fresh_sb_info k) root_inode now' (init_root_inode k now blank)

module _ (k : Kernel) (now now' : Timespec) (blank : Inode) (small : k.block_size ≤ 65536) where
  mounted-counted :
      (mounted k now now' blank).nr_free_blocks
      ≡ count_clear (mounted k now now' blank).block_bitmap 20 0
  unfolding init_root_entry fresh_sb_info
  mounted-counted = omega (
    arith,
    count_clear-set (λ _. false) 20 0 0 (omega arith) (omega arith) refl,
    count_clear_all (λ _. false) 20 0 (λ j. refl),
  )

  mounted-IsValid : IsValid k (mounted k now now' blank)
  unfolding init_root_entry fresh_sb_info
  mounted-IsValid = record {
    block_size_eq = refl;
    block_size_le = small;
    inode_count_eq = refl;
    block_count_eq = refl;
    counted = mounted-counted;
    root_taken = refl;
    owned = λ p h. ground arith;
    apart = λ p q hp hq ne. absurd (ne (ground arith));
    sized = λ p. ground arith;
  }

  pub mounted-IsRooted : IsRooted k (mounted k now now' blank) root_inode
  unfolding init_root_entry fresh_sb_info
  mounted-IsRooted = record {
    valid = mounted-IsValid;
    taken = refl;
    owns = refl;
    dir = record { whole = refl; named = λ i h. absurd (omega arith) };
  }

  entries-mounted : entries k (mounted k now now' blank) root_inode ≡ []
  unfolding init_root_entry fresh_sb_info
  entries-mounted = entries_none _ _

root_found : (k : Kernel) → osfs_get_osfs_inode (fresh_sb_info k) root_inode ≡ some root_inode
unfolding fresh_sb_info
root_found k = osfs_get_osfs_inode_lem (fresh_sb_info k) root_inode (omega arith) (omega arith)

nr_free_blocks-mounted :
    (k : Kernel) (now now' : Timespec) (blank : Inode)
    → (mounted k now now' blank).nr_free_blocks ≡ 19
unfolding init_root_entry fresh_sb_info
nr_free_blocks-mounted k now now' blank = refl

-- Mounting succeeds when vmalloc, new_inode and d_make_root do. The region is then valid, its root
-- directory in use and empty, and nineteen of the twenty blocks are free. This is for a BLOCK_SIZE of
-- at most 64 KiB.
pub osfs_fill_super_lem :
    (k : Kernel) (blank : Inode) (now now' : Timespec) (s : SuperBlock)
    → k.block_size ≤ 65536
    → let (s', r) = osfs_fill_super k true (some blank) now now' true s in
      (r ≡ ok tt)
      × ((sb : SbInfo) × (s'.s_fs_info ≡ some sb)
          × IsRooted k sb root_inode
          × (entries k sb root_inode ≡ [])
          × (sb.nr_free_blocks ≡ 19))
      × (s'.vfree_calls ≡ s.vfree_calls)
unfolding osfs_fill_super
osfs_fill_super_lem k blank now now' s small = rw (root_found k) (
  refl,
  (
    mounted k now now' blank,
    refl,
    mounted-IsRooted k now now' blank small,
    entries-mounted k now now' blank small,
    nr_free_blocks-mounted k now now' blank,
  ),
  refl,
)

-- How often the region is freed when the file system is unmounted, or when the kernel gives up a
-- failed mount: in both cases it calls osfs_kill_superblock.
abbrev pub frees : (memory : Bool) → Result (Unit {0}) → ℕ
frees false r = 0
frees true (ok _) = 1
frees true (err e) = 2

-- After a mount that succeeds, unmounting frees the region once. After a mount that fails behind
-- vmalloc, osfs_kill_superblock frees it a second time, since osfs_fill_super has freed it and left
-- the pointer in s_fs_info. If vmalloc fails nothing is freed. The superblock is new, with no region.
pub osfs_kill_superblock-osfs_fill_super :
    (k : Kernel) (memory : Bool) (fresh : Option Inode) (now now' : Timespec) (rooted : Bool)
    (s : SuperBlock)
    → s.s_fs_info ≡ none
    → s.vfree_calls ≡ 0
    → let (s', r) = osfs_fill_super k memory fresh now now' rooted s in
      ((osfs_kill_superblock s').vfree_calls ≡ frees memory r)
      × ((osfs_kill_superblock s').s_fs_info ≡ none)
unfolding osfs_fill_super osfs_kill_superblock
osfs_kill_superblock-osfs_fill_super k false fresh now now' rooted s e z = ground arith
osfs_kill_superblock-osfs_fill_super k true none now now' rooted s e z = ground arith
osfs_kill_superblock-osfs_fill_super k true (some blank) now now' true s e z =
    rw (root_found k) (ground arith)
osfs_kill_superblock-osfs_fill_super k true (some blank) now now' false s e z =
    rw (root_found k) (ground arith)
