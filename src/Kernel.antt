-- ===== src/Kernel.antt =====
-- What both versions of osfs take from the Linux headers, which are not part of the repository:
-- the errno values, `struct inode`, BLOCK_SIZE, the S_IS* tests and the helpers that they call.
-- Whatever a helper may answer differently from call to call is an argument of the operation.
use fall_oslab.Base.{ℕ, ◌^◌, ◌≤◌, ◌≡◌, Bool, List, [], Option, length, take}

-- The errno values that osfs returns, negated in C.
pub data Errno : Type 0 where
  efault einval enospc enomem eio eexist enametoolong : Errno

-- An `int`, `ssize_t` or pointer result: a negative value or ERR_PTR is `err`.
pub data Result {ℓ} (A : Type ℓ) : Type ℓ where
  ok : A → Result A
  err : Errno → Result A

-- `struct timespec64`: times are only copied, so a time is a number.
abbrev pub Timespec : Type 0
Timespec = ℕ

-- Which operation tables `i_op` and `i_fop` point to.
pub data InodeOps : Type 0 where
  no_ops dir_ops file_ops : InodeOps

-- The fields of the VFS `struct inode` that osfs reads or writes. `i_private` points into the
-- inode table: it holds the index of the entry, and 0 for NULL, since entry 0 is never handed out.
pub record Inode : Type 0 where
  pub i_ino : ℕ
  pub i_mode : ℕ
  pub i_uid : ℕ
  pub i_gid : ℕ
  pub i_size : ℕ
  pub i_blocks : ℕ
  pub i_nlink : ℕ
  pub i_atime : Timespec
  pub i_mtime : Timespec
  pub i_ctime : Timespec
  pub i_ops : InodeOps
  pub i_private : ℕ
  pub hashed : Bool

pub record Kernel : Type 0 where
  -- BLOCK_SIZE of <linux/fs.h>
  pub block_size : ℕ
  -- S_ISDIR, S_ISREG, S_ISLNK and S_IFDIR | 0755
  pub s_isdir : ℕ → Bool
  pub s_isreg : ℕ → Bool
  pub s_islnk : ℕ → Bool
  pub s_ifdir_0755 : ℕ
  -- inode_init_owner(&nop_mnt_idmap, inode, dir, mode): sets i_uid, i_gid and i_mode.
  pub inode_init_owner : Inode → Option Inode → ℕ → Inode

-- copy_from_user as documented: `copy bytes n` is what it stores of the n bytes asked for, and how
-- many it could not copy. If all went well it stored the first n bytes, it never stores more than
-- n, and a size above INT_MAX is refused.
pub record IsCopy (copy : List ℕ → ℕ → List ℕ × ℕ) : Type 0 where
  pub full : (bytes : List ℕ) (n : ℕ) → (copy bytes n).1 ≡ 0 → (copy bytes n).0 ≡ take n bytes
  pub bounded : (bytes : List ℕ) (n : ℕ) → length (copy bytes n).0 ≤ n
  pub refused : (bytes : List ℕ) (n : ℕ) → 2 ^ 31 ≤ n → copy bytes n ≡ ([], n)
