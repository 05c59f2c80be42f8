-- ===== src/Extent/Dir.antt =====
-- Lab4/Lab4_Template_Optimize/dir.c: lookup, create and iterate.
pub mod Create
use fall_oslab.Base.{
  ℕ, zero, suc, ◌+◌, ◌-◌, ◌*◌, ◌/◌, ◌%◌, ◌^◌, List, [], ◌∷◌, ◌++◌, Option, none, some, Bool, true,
  false, ◌&&◌, ◌==◌, ltb, leb, if◌then◌else◌, add32, sub64, mul32, length, load_bytes, store_bytes,
  load_u32, store_u32,
}
use fall_oslab.Kernel.{Kernel, Result, ok, err, enospc, Inode, Timespec}
use fall_oslab.Extent.Types.{
  SbInfo, OsfsInode, put_inode, zero_inode, sizeof_dir_entry, inode_no_offset,
}
use fall_oslab.Extent.Inode.{osfs_get_osfs_inode, osfs_get_free_inode, osfs_alloc_extent, osfs_iget}

-- strlen(m + p) of <linux/string.h>, which stops at the end of the data area at the latest.
unfoldable pub strlen_from : (fuel : ℕ) → (ℕ → ℕ) → ℕ → ℕ
strlen_from zero m p = 0
strlen_from (suc f) m p = let rest = strlen_from f m (p + 1) in if m p == 0 then 0 else suc rest

-- strncmp(m + p, name, len(name)) == 0
unfoldable pub strncmp_eq : (ℕ → ℕ) → ℕ → List ℕ → Bool
strncmp_eq m p [] = true
strncmp_eq m p (c ∷ cs) =
    if m p == c then (if c == 0 then true else strncmp_eq m (p + 1) cs) else false

abbrev pub entries : Kernel → OsfsInode → ℕ
entries k oi = mul32 oi.i_extent.ee_start k.block_size

abbrev pub entry_at : (base i : ℕ) → ℕ
entry_at base i = base + i * sizeof_dir_entry

abbrev pub entry_count : OsfsInode → ℕ
entry_count oi = oi.i_size / sizeof_dir_entry

abbrev pub strlen : SbInfo → ℕ → ℕ
strlen sb p = strlen_from (sb.block_count * sb.block_size - p) sb.data_blocks p

-- The test of the loop of osfs_lookup.
unfoldable pub entry_matches : SbInfo → (p : ℕ) → List ℕ → Bool
entry_matches sb p name = strncmp_eq sb.data_blocks p name && strlen sb p == length name

unfoldable pub find_entry : SbInfo → (base : ℕ) → List ℕ → (rounds i : ℕ) → Option ℕ
find_entry sb base name zero i = none
find_entry sb base name (suc n) i =
    let rest = find_entry sb base name n (i + 1) in
    if entry_matches sb (entry_at base i) name then some i else rest

abbrev pub inode_no_at : SbInfo → (p : ℕ) → ℕ
inode_no_at sb p = load_u32 sb.data_blocks (p + inode_no_offset)

-- d_splice_alias of an inode, or of what osfs_iget returns in its place.
abbrev pub splice : Result Inode → Result (Option Inode)
splice (err e) = err e
splice (ok inode) = ok (some inode)

-- `ok none` is NULL.
unfoldable pub osfs_lookup :
    Kernel → SbInfo → (fresh : Option Inode) → Inode → List ℕ → Result (Option Inode)
osfs_lookup k sb fresh dir name =
    let parent = sb.inode_table dir.i_private in
    let base = entries k parent in
    let found : Result (Option Inode) = elim (find_entry sb base name (entry_count parent) 0) [
      | none ↦ ok none
      | some i ↦ splice (osfs_iget k sb fresh (inode_no_at sb (entry_at base i)))
    ] in
    if parent.i_extent.ee_len == 0 then ok none else found

-- strncpy(entries[idx].filename, name, len), which stores no terminator, and inode_no.
unfoldable pub write_entry : (ℕ → ℕ) → (p : ℕ) → List ℕ → (inode_no : ℕ) → ℕ → ℕ
write_entry m p name inode_no = store_u32 (store_bytes m p name) (p + inode_no_offset) inode_no

-- What osfs_create returns, with the memory and the dentry's inode after it.
pub record CreateOut : Type 0 where
  pub result : Result (Unit {0})
  pub sb : SbInfo
  pub dentry : Option Inode

-- The VFS inode that osfs_create fills in, up to i_private.
unfoldable pub init_vfs_inode : Timespec → Inode → (mode ino : ℕ) → Inode
init_vfs_inode now fresh mode ino = record fresh {
  i_ino = ino;
  i_mode = mode;
  i_atime = now;
  i_mtime = now;
  i_ctime = now;
}

-- The extent of 5 blocks; a failure is not reported.
unfoldable pub try_extent : OsfsInode → (p : ℕ) → SbInfo × Result ℕ → SbInfo
try_extent oi p (sb, err e) = sb
try_extent oi p (sb, ok i) =
    put_inode sb p (record oi { i_extent = record { ee_start = i; ee_len = 5 }; i_blocks = 5 })

-- The entry behind the last one of the directory.
unfoldable pub append_entry : Kernel → SbInfo → (dir : Inode) → List ℕ → (ino : ℕ) → SbInfo
append_entry k sb dir name ino =
    let parent = sb.inode_table dir.i_private in
    let p = entry_at (entries k parent) (entry_count parent) in
    put_inode (record sb { data_blocks = write_entry sb.data_blocks p name ino }) dir.i_private
      (record parent { i_size = add32 parent.i_size sizeof_dir_entry })

-- osfs_create for the inode number `ino`, with the inode `blank` and the entry `p` of the table.
unfoldable pub fill_inode :
    Kernel → (now : Timespec) → SbInfo → (dir blank : Inode) → List ℕ → (mode ino p : ℕ) → CreateOut
fill_inode k now sb dir blank name mode ino p =
    let oi = record zero_inode { i_ino = ino; i_mode = mode } in
    let sb' = try_extent oi p (osfs_alloc_extent (put_inode sb p oi) 5) in
    record {
      result = ok tt;
      sb = append_entry k sb' dir name ino;
      dentry = some (record (init_vfs_inode now blank mode ino) { i_private = p });
    }

-- osfs_create on the answer of osfs_get_free_inode.
unfoldable pub create_numbered :
    Kernel
    → (fresh : Option Inode) → (now : Timespec) → (dir : Inode) → List ℕ
    → (mode : ℕ) → SbInfo × Result ℕ
    → Option CreateOut
create_numbered k fresh now dir name mode (sb, err e) =
    some (record { result = err enospc; sb = sb; dentry = none })
create_numbered k fresh now dir name mode (sb, ok ino) = elim fresh [
  | none ↦ none
  | some blank ↦ elim (osfs_get_osfs_inode sb ino) [
    | none ↦ none
    | some p ↦ some (fill_inode k now sb dir blank name mode ino p)
  ]
]

-- `fresh` is what new_inode(sb) returns. `none`: the code writes through a NULL pointer.
unfoldable pub osfs_create :
    Kernel
    → (fresh : Option Inode) → (now : Timespec) → SbInfo
    → (dir : Inode) → List ℕ
    → (mode : ℕ) → Option CreateOut
osfs_create k fresh now sb dir name mode =
    create_numbered k fresh now dir name mode (osfs_get_free_inode sb)

-- struct dir_context: the position, and what the actor has been given so far.
pub record DirContext : Type 0 where
  pub pos : ℕ
  pub emitted : List (List ℕ × ℕ)

-- The loop of osfs_iterate; `accept` is the actor's answer to an entry, given what it has.
unfoldable pub iterate_entries :
    SbInfo
    → (base : ℕ) → (accept : List (List ℕ × ℕ) → List ℕ × ℕ → Bool) → (rounds i : ℕ) → DirContext
    → DirContext
iterate_entries sb base accept zero i ctx = ctx
iterate_entries sb base accept (suc n) i ctx =
    let p = entry_at base i in
    let e : List ℕ × ℕ = (load_bytes sb.data_blocks p (strlen sb p), inode_no_at sb p) in
    let rest =
      iterate_entries sb base accept n (i + 1)
        (record { pos = ctx.pos + 1; emitted = ctx.emitted ++ (e ∷ []) }) in
    if accept ctx.emitted e then rest else ctx

-- `dots` is dir_emit_dots. The index is an int, which takes the low 32 bits of ctx->pos - 2.
-- `none`: it is negative, as at position 1, and the loop starts in front of the entries. The result
-- is 0.
unfoldable pub osfs_iterate :
    Kernel
    → (dots : DirContext → DirContext × Bool) → (accept : List (List ℕ × ℕ) → List ℕ × ℕ → Bool)
    → SbInfo
    → Inode
    → DirContext
    → Option DirContext
osfs_iterate k dots accept sb inode ctx =
    let oi = sb.inode_table inode.i_private in
    let (ctx', done) = if ctx.pos == 0 then dots ctx else (ctx, true) in
    let i = sub64 ctx'.pos 2 % 2 ^ 32 in
    let run = iterate_entries sb (entries k oi) accept (entry_count oi - i) i ctx' in
    if done then (if leb (2 ^ 31) i then none else some run) else some ctx'
