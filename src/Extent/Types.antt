-- ===== src/Extent/Types.antt =====
-- Lab4/Lab4_Template_Optimize/osfs.h: the structures and constants.
use fall_oslab.Base.{ℕ, Bool, update}

abbrev pub osfs_magic : ℕ
osfs_magic = 0x051AB520

abbrev pub inode_count_max : ℕ
inode_count_max = 20

abbrev pub data_block_count : ℕ
data_block_count = 20

abbrev pub max_filename_len : ℕ
max_filename_len = 255

abbrev pub root_inode : ℕ
root_inode = 1

-- sizeof(struct osfs_dir_entry): 255 name bytes, one byte of padding, and a uint32_t at offset 256.
abbrev pub sizeof_dir_entry : ℕ
sizeof_dir_entry = 260

abbrev pub inode_no_offset : ℕ
inode_no_offset = 256

-- struct osfs_extent
pub record OsfsExtent : Type 0 where
  pub ee_start : ℕ
  pub ee_len : ℕ

-- struct osfs_inode, less the fields that no function of this version reads or sets: i_links_count,
-- i_uid, i_gid and the three times stay 0.
pub record OsfsInode : Type 0 where
  pub i_ino : ℕ
  pub i_size : ℕ
  pub i_blocks : ℕ
  pub i_mode : ℕ
  pub i_extent : OsfsExtent

-- memset(oi, 0, sizeof(*oi))
abbrev pub zero_inode : OsfsInode
zero_inode = record {
  i_ino = 0;
  i_size = 0;
  i_blocks = 0;
  i_mode = 0;
  i_extent = record { ee_start = 0; ee_len = 0 };
}

-- struct osfs_sb_info, with the areas that its pointers lead to.
pub record SbInfo : Type 0 where
  pub magic : ℕ
  pub block_size : ℕ
  pub inode_count : ℕ
  pub block_count : ℕ
  pub nr_free_inodes : ℕ
  pub nr_free_blocks : ℕ
  pub inode_bitmap : ℕ → Bool
  pub block_bitmap : ℕ → Bool
  pub inode_table : ℕ → OsfsInode
  pub data_blocks : ℕ → ℕ

abbrev pub put_inode : SbInfo → ℕ → OsfsInode → SbInfo
put_inode sb ino oi = record sb { inode_table = update sb.inode_table ino oi }
