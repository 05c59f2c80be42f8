-- ===== src/Extent/File.antt =====
-- Lab4/Lab4_Template_Optimize/file.c: read and write of a file in its extent.
pub mod Changes
pub mod Within
use fall_oslab.Base.{
  ℕ, ◌+◌, ◌-◌, ◌%◌, ◌^◌, List, [], Option, none, some, ◌||◌, ◌==◌, ltb, leb, if◌then◌else◌, add64,
  sub64, mul32, load_bytes, store_bytes,
}
use fall_oslab.Kernel.{Kernel, Result, ok, err, Errno, efault, enospc, Inode}
use fall_oslab.Extent.Types.{SbInfo, OsfsInode, put_inode}
use fall_oslab.Extent.Inode.{osfs_alloc_extent}

-- What osfs_read returns, `*ppos` after it, and the bytes that reached the user's buffer.
pub record ReadOut : Type 0 where
  pub result : Result ℕ
  pub pos : ℕ
  pub buf : List ℕ

-- `left n` is what copy_to_user returns for n bytes: how many it could not copy.
unfoldable pub osfs_read : Kernel → (left : ℕ → ℕ) → SbInfo → Inode → (len pos : ℕ) → ReadOut
osfs_read k left sb inode len pos =
    let oi = sb.inode_table inode.i_private in
    let n = if ltb oi.i_size (add64 pos len) then sub64 oi.i_size pos else len in
    let data_ptr = mul32 oi.i_extent.ee_start k.block_size + pos in
    if leb oi.i_size pos || oi.i_extent.ee_len == 0
    then record { result = ok 0; pos = pos; buf = [] }
    else (if left n == 0
        then record { result = ok n; pos = add64 pos n; buf = load_bytes sb.data_blocks data_ptr n }
        else record {
          result = err efault;
          pos = pos;
          buf = load_bytes sb.data_blocks data_ptr (n - left n);
        })

-- What osfs_write returns, with the memory, the VFS inode and `*ppos` after it.
pub record WriteOut : Type 0 where
  pub result : Result ℕ
  pub sb : SbInfo
  pub inode : Inode
  pub pos : ℕ

-- The answer of osfs_alloc_extent(sb_info, 5, &oi->i_extent.ee_start), and what becomes of it.
unfoldable pub give_extent : OsfsInode → (p : ℕ) → SbInfo × Result ℕ → SbInfo × Option Errno
give_extent oi p (sb, err e) = (sb, some enospc)
give_extent oi p (sb, ok i) =
    (put_inode sb p (record oi { i_extent = record { ee_start = i; ee_len = 5 } }), none)

-- A file with no extent gets one of 5 blocks.
unfoldable pub ensure_extent : SbInfo → (p : ℕ) → SbInfo × Option Errno
ensure_extent sb p =
    let oi = sb.inode_table p in
    if oi.i_extent.ee_len == 0 then give_extent oi p (osfs_alloc_extent sb 5) else (sb, none)

-- The rest of osfs_write. `copy bytes n` is copy_from_user: what it stores, and how many bytes it
-- could not copy. `oi->i_size = *ppos` keeps 32 bits.
unfoldable pub write_extent :
    Kernel → (copy : List ℕ → ℕ → List ℕ × ℕ) → SbInfo → Inode → List ℕ → (len pos : ℕ) → WriteOut
write_extent k copy sb inode bytes len pos =
    let oi = sb.inode_table inode.i_private in
    let end_of_extent = mul32 oi.i_extent.ee_len k.block_size in
    let n = if ltb end_of_extent (add64 pos len) then sub64 end_of_extent pos else len in
    let data_ptr = mul32 oi.i_extent.ee_start k.block_size + pos in
    let (stored, left) = copy bytes n in
    let sb' = record sb { data_blocks = store_bytes sb.data_blocks data_ptr stored } in
    let pos' = add64 pos n in
    let grows = ltb oi.i_size pos' in
    if left == 0
    then record {
      result = ok n;
      sb =
          put_inode sb' inode.i_private
            (record oi { i_size = if grows then pos' % 2 ^ 32 else oi.i_size });
      inode = record inode { i_size = if grows then pos' else inode.i_size };
      pos = pos';
    }
    else record { result = err efault; sb = sb'; inode = inode; pos = pos }

unfoldable pub finish_write :
    Kernel
    → (copy : List ℕ → ℕ → List ℕ × ℕ) → Inode
    → List ℕ
    → (len pos : ℕ) → SbInfo × Option Errno
    → WriteOut
finish_write k copy inode bytes len pos (sb, some e) = record {
  result = err e;
  sb = sb;
  inode = inode;
  pos = pos;
}
finish_write k copy inode bytes len pos (sb, none) = write_extent k copy sb inode bytes len pos

unfoldable pub osfs_write :
    Kernel → (copy : List ℕ → ℕ → List ℕ × ℕ) → SbInfo → Inode → List ℕ → (len pos : ℕ) → WriteOut
osfs_write k copy sb inode bytes len pos =
    finish_write k copy inode bytes len pos (ensure_extent sb inode.i_private)
