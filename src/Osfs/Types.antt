-- ===== src/Osfs/Types.antt =====
-- Lab4/Lab4_Template_Done/osfs.h: the structures and constants.
use fall_oslab.Base.{ℕ, ◌/◌, Bool, update}
use fall_oslab.Kernel.{Kernel, Timespec}

abbrev pub osfs_magic : ℕ
osfs_magic = 0x051AB520

abbrev pub inode_count_max : ℕ
inode_count_max = 20

abbrev pub data_block_count : ℕ
data_block_count = 20

abbrev pub max_filename_len : ℕ
max_filename_len = 255

abbrev pub root_inode : ℕ
root_inode = 1

-- sizeof(struct osfs_dir_entry): 255 name bytes, one byte of padding, and a uint32_t at offset 256.
abbrev pub sizeof_dir_entry : ℕ
sizeof_dir_entry = 260

abbrev pub inode_no_offset : ℕ
inode_no_offset = 256

-- MAX_DIR_ENTRIES
abbrev pub max_dir_entries : Kernel → ℕ
max_dir_entries k = k.block_size / sizeof_dir_entry

-- struct osfs_inode
pub record OsfsInode : Type 0 where
  pub i_ino : ℕ
  pub i_size : ℕ
  pub i_blocks : ℕ
  pub i_mode : ℕ
  pub i_links_count : ℕ
  pub i_uid : ℕ
  pub i_gid : ℕ
  pub i_atime : Timespec
  pub i_mtime : Timespec
  pub i_ctime : Timespec
  pub i_block : ℕ

-- memset(inode, 0, sizeof(*inode))
abbrev pub zero_inode : OsfsInode
zero_inode = record {
  i_ino = 0;
  i_size = 0;
  i_blocks = 0;
  i_mode = 0;
  i_links_count = 0;
  i_uid = 0;
  i_gid = 0;
  i_atime = 0;
  i_mtime = 0;
  i_ctime = 0;
  i_block = 0;
}

-- struct osfs_sb_info, with the areas that its pointers lead to: the bits of the two bitmaps, the
-- entries of the inode table, and the bytes of the data blocks, each by its offset.
pub record SbInfo : Type 0 where
  pub magic : ℕ
  pub block_size : ℕ
  pub inode_count : ℕ
  pub block_count : ℕ
  pub nr_free_inodes : ℕ
  pub nr_free_blocks : ℕ
  pub inode_bitmap : ℕ → Bool
  pub block_bitmap : ℕ → Bool
  pub inode_table : ℕ → OsfsInode
  pub data_blocks : ℕ → ℕ

-- The inode `i_private` points to is written in place.
abbrev pub put_inode : SbInfo → ℕ → OsfsInode → SbInfo
put_inode sb ino oi = record sb { inode_table = update sb.inode_table ino oi }
