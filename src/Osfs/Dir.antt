-- ===== src/Osfs/Dir.antt =====
-- Lab4/Lab4_Template_Done/dir.c: lookup, iterate, and the creation of files.
pub mod Names
pub mod Entries
pub mod Add
pub mod NewInode
pub mod Create
pub mod Find
pub mod Leak
use fall_oslab.Base.{
  ℕ, zero, suc, ◌+◌, ◌-◌, ◌*◌, ◌/◌, ◌%◌, ◌^◌, List, [], ◌∷◌, ◌++◌, Option, none, some, Bool, true,
  false, not, ◌&&◌, ◌||◌, ◌==◌, ltb, leb, update, if◌then◌else◌, add32, sub32, sub64, mul32, length,
  load_bytes, store_bytes, load_u32, store_u32,
}
use fall_oslab.Kernel.{
  Kernel, Result, ok, err, einval, enospc, enomem, eio, eexist, enametoolong, Inode, dir_ops,
  file_ops, Timespec,
}
use fall_oslab.Osfs.Types.{
  SbInfo, OsfsInode, put_inode, zero_inode, sizeof_dir_entry, inode_no_offset, max_dir_entries,
  max_filename_len,
}
use fall_oslab.Osfs.Inode.{
  osfs_get_osfs_inode, osfs_get_free_inode, osfs_alloc_data_block, osfs_iget,
}

-- strlen(m + p) of <linux/string.h>, which stops at the end of the data area at the latest.
unfoldable pub strlen_from : (fuel : ℕ) → (ℕ → ℕ) → ℕ → ℕ
strlen_from zero m p = 0
strlen_from (suc f) m p = let rest = strlen_from f m (p + 1) in if m p == 0 then 0 else suc rest

-- strncmp(m + p, name, len(name)) == 0
unfoldable pub strncmp_eq : (ℕ → ℕ) → ℕ → List ℕ → Bool
strncmp_eq m p [] = true
strncmp_eq m p (c ∷ cs) =
    if m p == c then (if c == 0 then true else strncmp_eq m (p + 1) cs) else false

-- The data area's size, dir_data_block of a directory, and &dir_entries[i] there.
abbrev pub data_end : SbInfo → ℕ
data_end sb = sb.block_count * sb.block_size

abbrev pub dir_data_block : Kernel → OsfsInode → ℕ
dir_data_block k oi = mul32 oi.i_block k.block_size

abbrev pub dir_entry_at : (base i : ℕ) → ℕ
dir_entry_at base i = base + i * sizeof_dir_entry

abbrev pub dir_entry_count : OsfsInode → ℕ
dir_entry_count oi = oi.i_size / sizeof_dir_entry

abbrev pub strlen : SbInfo → ℕ → ℕ
strlen sb p = strlen_from (data_end sb - p) sb.data_blocks p

-- The test that osfs_lookup and osfs_add_dir_entry make of an entry.
unfoldable pub entry_matches : SbInfo → (p : ℕ) → List ℕ → Bool
entry_matches sb p name = strlen sb p == length name && strncmp_eq sb.data_blocks p name

-- The loop over the entries i, i + 1, …: the first one of that name.
unfoldable pub find_entry : SbInfo → (base : ℕ) → List ℕ → (rounds i : ℕ) → Option ℕ
find_entry sb base name zero i = none
find_entry sb base name (suc n) i =
    let rest = find_entry sb base name n (i + 1) in
    if entry_matches sb (dir_entry_at base i) name then some i else rest

-- The inode number of the entry at `p`.
abbrev pub inode_no_at : SbInfo → (p : ℕ) → ℕ
inode_no_at sb p = load_u32 sb.data_blocks (p + inode_no_offset)

-- d_splice_alias(inode, dentry), or ERR_CAST(inode).
abbrev pub splice : Result Inode → Result (Option Inode)
splice (err e) = err e
splice (ok inode) = ok (some inode)

-- `ok none` is NULL, `ok (some inode)` the dentry with that inode.
unfoldable pub osfs_lookup :
    Kernel → SbInfo → (fresh : Option Inode) → Inode → List ℕ → Result (Option Inode)
osfs_lookup k sb fresh dir name =
    let parent = sb.inode_table dir.i_private in
    let base = dir_data_block k parent in
    elim (find_entry sb base name (dir_entry_count parent) 0) [
      | none ↦ ok none
      | some i ↦ splice (osfs_iget k sb fresh (inode_no_at sb (dir_entry_at base i)))
    ]

-- A name and an inode number, as dir_emit gets them.
abbrev pub Emitted : Type 0
Emitted = List ℕ × ℕ

-- struct dir_context: the position, and what the actor has been given so far.
pub record DirContext : Type 0 where
  pub pos : ℕ
  pub emitted : List Emitted

-- The arguments of dir_emit for the entry at `p`.
unfoldable pub entry_of : SbInfo → (p : ℕ) → Emitted
entry_of sb p = (load_bytes sb.data_blocks p (strlen sb p), inode_no_at sb p)

-- `accept` is the actor's answer to an entry, given what it has.
unfoldable pub iterate_entries :
    SbInfo
    → (base : ℕ) → (accept : List Emitted → Emitted → Bool) → (rounds i : ℕ) → DirContext
    → DirContext × Result (Unit {0})
iterate_entries sb base accept zero i ctx = (ctx, ok tt)
iterate_entries sb base accept (suc n) i ctx =
    let e = entry_of sb (dir_entry_at base i) in
    let rest =
      iterate_entries sb base accept n (i + 1)
        (record { pos = ctx.pos + 1; emitted = ctx.emitted ++ (e ∷ []) }) in
    if accept ctx.emitted e then rest else (ctx, err einval)

-- `dots` is dir_emit_dots. The index is an int, which takes the low 32 bits of ctx->pos - 2. `none`:
-- it is negative, as at position 1, and the loop starts in front of the block, which is undefined.
unfoldable pub osfs_iterate :
    Kernel
    → (dots : DirContext → DirContext × Bool) → (accept : List Emitted → Emitted → Bool) → SbInfo
    → Inode
    → DirContext
    → Option (DirContext × Result (Unit {0}))
osfs_iterate k dots accept sb inode ctx =
    let oi = sb.inode_table inode.i_private in
    let (ctx', done) = if ctx.pos == 0 then dots ctx else (ctx, true) in
    let i = sub64 ctx'.pos 2 % 2 ^ 32 in
    let run = iterate_entries sb (dir_data_block k oi) accept (dir_entry_count oi - i) i ctx' in
    if done then (if leb (2 ^ 31) i then none else some run) else some (ctx', ok tt)

-- The VFS inode that osfs_new_inode fills in, up to i_private.
unfoldable pub init_vfs_inode : Kernel → Timespec → Inode → (dir : Inode) → (mode ino : ℕ) → Inode
init_vfs_inode k now fresh dir mode ino =
    let inode = k.inode_init_owner fresh (some dir) mode in
    let stamped = record inode {
      i_ino = ino;
      i_blocks = 0;
      i_atime = now;
      i_mtime = now;
      i_ctime = now;
    } in
    if k.s_isdir mode
    then record stamped { i_ops = dir_ops; i_nlink = 2; i_size = 0 }
    else (if k.s_isreg mode
        then record stamped { i_ops = file_ops; i_nlink = 1; i_size = 0 }
        else (if k.s_islnk mode then record stamped { i_nlink = 1; i_size = 0 } else stamped))

-- The cleared and initialised entry of the inode table, before it has its block.
unfoldable pub init_osfs_inode : Timespec → Inode → ℕ → OsfsInode
init_osfs_inode now inode ino = record zero_inode {
  i_ino = ino;
  i_mode = inode.i_mode;
  i_uid = inode.i_uid;
  i_gid = inode.i_gid;
  i_size = inode.i_size;
  i_blocks = 1;
  i_atime = now;
  i_mtime = now;
  i_ctime = now;
}

-- The end of osfs_new_inode, on the answer of osfs_alloc_data_block(sb_info, &osfs_inode->i_block).
unfoldable pub attach_block : Inode → (p : ℕ) → SbInfo × Result ℕ → SbInfo × Result Inode
attach_block inode p (sb, err e) = (sb, err e)
attach_block inode p (sb, ok b) = (
  put_inode (record sb { nr_free_inodes = sub32 sb.nr_free_inodes 1 }) p
      (record (sb.inode_table p) { i_block = b }),
  ok (record inode { i_private = p }),
)

-- osfs_new_inode from the answer of osfs_get_free_inode on.
unfoldable pub place_inode :
    Kernel
    → (fresh : Option Inode) → (now now' : Timespec) → (dir : Inode) → (mode : ℕ)
    → SbInfo × Result ℕ
    → SbInfo × Result Inode
place_inode k fresh now now' dir mode (sb, err e) = (sb, err enospc)
place_inode k fresh now now' dir mode (sb, ok ino) =
    let placed : SbInfo × Result Inode = elim fresh [
      | none ↦ (sb, err enomem)
      | some blank ↦
          let inode = init_vfs_inode k now blank dir mode ino in
          elim (osfs_get_osfs_inode sb ino) [
            | none ↦ (sb, err eio)
            | some p ↦
                attach_block inode p
                  (osfs_alloc_data_block (put_inode sb p (init_osfs_inode now' inode ino)))
          ]
    ] in
    if leb sb.inode_count ino then (sb, err enospc) else placed

-- `fresh` is what new_inode(sb) returns, `now` and `now'` what current_time does in
-- simple_inode_init_ts and for the entry.
unfoldable pub osfs_new_inode :
    Kernel
    → (fresh : Option Inode) → (now now' : Timespec) → SbInfo
    → (dir : Inode) → (mode : ℕ) → SbInfo × Result Inode
osfs_new_inode k fresh now now' sb dir mode =
    if not (k.s_isdir mode || k.s_isreg mode || k.s_islnk mode)
    then (sb, err einval)
    else (if sb.nr_free_inodes == 0 || sb.nr_free_blocks == 0
        then (sb, err enospc)
        else place_inode k fresh now now' dir mode (osfs_get_free_inode sb))

-- The new entry's bytes: strncpy, the terminator behind it, and the inode number.
unfoldable pub write_entry : (ℕ → ℕ) → (p : ℕ) → List ℕ → (inode_no : ℕ) → ℕ → ℕ
write_entry m p name inode_no =
    store_u32 (update (store_bytes m p name) (p + length name) 0) (p + inode_no_offset) inode_no

unfoldable pub osfs_add_dir_entry :
    Kernel → SbInfo → (dir : Inode) → (inode_no : ℕ) → List ℕ → SbInfo × Result (Unit {0})
osfs_add_dir_entry k sb dir inode_no name =
    let parent = sb.inode_table dir.i_private in
    let base = dir_data_block k parent in
    let count = dir_entry_count parent in
    let added =
      put_inode
        (record sb {
          data_blocks = write_entry sb.data_blocks (dir_entry_at base count) name inode_no;
        })
        dir.i_private (record parent { i_size = add32 parent.i_size sizeof_dir_entry }) in
    if leb (max_dir_entries k) count
    then (sb, err enospc)
    else elim (find_entry sb base name count 0) [
      | some i ↦ (sb, err eexist)
      | none ↦ (added, ok tt)
    ]

-- What osfs_create returns, with the memory, the directory's VFS inode and the dentry's inode.
pub record CreateOut : Type 0 where
  pub result : Result (Unit {0})
  pub sb : SbInfo
  pub dir : Inode
  pub dentry : Option Inode

-- The end of osfs_create, on the answer of osfs_add_dir_entry. iput only drops the VFS inode.
-- `bound` says whether d_instantiate left the inode in the dentry.
unfoldable pub finish_create :
    (bound : Bool) → (dir inode : Inode) → SbInfo × Result (Unit {0}) → CreateOut
finish_create bound dir inode (sb, err e) = record {
  result = err e;
  sb = sb;
  dir = dir;
  dentry = none;
}
finish_create bound dir inode (sb, ok _) =
    let dir' = record dir { i_size = dir.i_size + sizeof_dir_entry } in
    if bound
    then record { result = ok tt; sb = sb; dir = dir'; dentry = some inode }
    else record { result = err eio; sb = sb; dir = dir'; dentry = none }

-- osfs_create from the answer of osfs_new_inode on.
unfoldable pub enter_inode :
    Kernel → (bound : Bool) → (dir : Inode) → List ℕ → SbInfo × Result Inode → CreateOut
enter_inode k bound dir name (sb, err e) = record {
  result = err e;
  sb = sb;
  dir = dir;
  dentry = none;
}
enter_inode k bound dir name (sb, ok inode) =
    finish_create bound dir inode (osfs_add_dir_entry k sb dir inode.i_ino name)

unfoldable pub osfs_create :
    Kernel
    → (fresh : Option Inode) → (now now' : Timespec) → (bound : Bool) → SbInfo
    → (dir : Inode) → List ℕ
    → (mode : ℕ) → CreateOut
osfs_create k fresh now now' bound sb dir name mode =
    if ltb max_filename_len (length name)
    then record { result = err enametoolong; sb = sb; dir = dir; dentry = none }
    else enter_inode k bound dir name (osfs_new_inode k fresh now now' sb dir mode)
