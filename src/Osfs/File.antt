-- ===== src/Osfs/File.antt =====
-- Lab4/Lab4_Template_Done/file.c: read and write of a regular file.
pub mod Valid
pub mod Refine
pub mod Changes
pub mod Apart
pub mod Errors
use fall_oslab.Base.{
  ℕ, ◌+◌, ◌-◌, List, [], Option, none, some, ◌==◌, ltb, leb, if◌then◌else◌, add64, sub64, mul32,
  load_bytes, store_bytes,
}
use fall_oslab.Kernel.{Kernel, Result, ok, err, Errno, efault, Inode, Timespec}
use fall_oslab.Osfs.Types.{SbInfo, OsfsInode, put_inode}
use fall_oslab.Osfs.Inode.{osfs_alloc_data_block}

-- What osfs_read returns, `*ppos` after it, and the bytes that reached the user's buffer.
pub record ReadOut : Type 0 where
  pub result : Result ℕ
  pub pos : ℕ
  pub buf : List ℕ

-- `left n` is what copy_to_user returns for n bytes: how many it could not copy.
unfoldable pub osfs_read : Kernel → (left : ℕ → ℕ) → SbInfo → Inode → (len pos : ℕ) → ReadOut
osfs_read k left sb inode len pos =
    let oi = sb.inode_table inode.i_private in
    let n = if ltb oi.i_size (add64 pos len) then sub64 oi.i_size pos else len in
    let data_block = mul32 oi.i_block k.block_size + pos in
    if oi.i_blocks == 0
    then record { result = ok 0; pos = pos; buf = [] }
    else (if leb oi.i_size pos
        then record { result = ok 0; pos = pos; buf = [] }
        else (if left n == 0
            then record {
              result = ok n;
              pos = add64 pos n;
              buf = load_bytes sb.data_blocks data_block n;
            }
            else record {
              result = err efault;
              pos = pos;
              buf = load_bytes sb.data_blocks data_block (n - left n);
            }))

-- What osfs_write returns, with the memory, the VFS inode and `*ppos` after it.
pub record WriteOut : Type 0 where
  pub result : Result ℕ
  pub sb : SbInfo
  pub inode : Inode
  pub pos : ℕ

-- The answer of osfs_alloc_data_block(sb_info, &osfs_inode->i_block), and what step 2 makes of it.
unfoldable pub give_block : OsfsInode → (p : ℕ) → SbInfo × Result ℕ → SbInfo × Option Errno
give_block oi p (sb, err e) = (sb, some e)
give_block oi p (sb, ok i) = (put_inode sb p (record oi { i_block = i; i_blocks = 1 }), none)

-- Step 2: a file with no data block gets one.
unfoldable pub ensure_block : SbInfo → (p : ℕ) → SbInfo × Option Errno
ensure_block sb p =
    let oi = sb.inode_table p in
    if oi.i_blocks == 0 then give_block oi p (osfs_alloc_data_block sb) else (sb, none)

-- Steps 3 to 6. `copy bytes n` is copy_from_user: what it stores, and how many bytes it could not
-- copy; `now` and `now'` are the two calls of current_time.
unfoldable pub write_block :
    Kernel
    → (copy : List ℕ → ℕ → List ℕ × ℕ) → (now now' : Timespec) → SbInfo
    → Inode
    → List ℕ
    → (len pos : ℕ) → WriteOut
write_block k copy now now' sb inode bytes len pos =
    let oi = sb.inode_table inode.i_private in
    let n = if ltb sb.block_size (add64 pos len) then sub64 sb.block_size pos else len in
    let data_block = mul32 oi.i_block sb.block_size + pos in
    let (stored, left) = copy bytes n in
    let sb' = record sb { data_blocks = store_bytes sb.data_blocks data_block stored } in
    let pos' = add64 pos n in
    let grows = ltb oi.i_size pos' in
    if left == 0
    then record {
      result = ok n;
      sb = put_inode sb' inode.i_private (record oi {
        i_size = if grows then pos' else oi.i_size;
        i_mtime = now';
        i_atime = now';
        i_ctime = now';
      });
      inode = record inode {
        i_size = if grows then pos' else inode.i_size;
        i_mtime = now;
        i_atime = now;
      };
      pos = pos';
    }
    else record { result = err efault; sb = sb'; inode = inode; pos = pos }

-- The end of osfs_write, after step 2.
unfoldable pub finish_write :
    Kernel
    → (copy : List ℕ → ℕ → List ℕ × ℕ) → (now now' : Timespec) → Inode
    → List ℕ
    → (len pos : ℕ) → SbInfo × Option Errno
    → WriteOut
finish_write k copy now now' inode bytes len pos (sb, some e) = record {
  result = err e;
  sb = sb;
  inode = inode;
  pos = pos;
}
finish_write k copy now now' inode bytes len pos (sb, none) =
    write_block k copy now now' sb inode bytes len pos

unfoldable pub osfs_write :
    Kernel
    → (copy : List ℕ → ℕ → List ℕ × ℕ) → (now now' : Timespec) → SbInfo
    → Inode
    → List ℕ
    → (len pos : ℕ) → WriteOut
osfs_write k copy now now' sb inode bytes len pos =
    finish_write k copy now now' inode bytes len pos (ensure_block sb inode.i_private)
