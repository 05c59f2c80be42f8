-- ===== src/Extent/Dir/Create.antt =====
-- Lab4/Lab4_Template_Optimize/dir.c: what osfs_create does to the table and to the data.
use mathlib.Core.Path.{subst}
use fall_oslab.Base.{
  ℕ, ◌+◌, ◌^◌, ◌≤◌, ◌<◌, ◌≡◌, ◌≢◌, refl, ap, sym, ◌∙◌, ◌⊎◌, inl, inr, List, Option, none, some,
  true, false, update, add32, sub32, arith, length, ne→==, eq→==, load_bytes, store_bytes, load_u32,
  store_bytes-below, store_bytes-above, load_bytes_agree, load_bytes-store_bytes, store_u32_apart,
  load_u32-store_u32,
}
use fall_oslab.Kernel.{Kernel, Result, ok, err, enospc, Inode, Timespec}
use fall_oslab.Extent.Types.{SbInfo, OsfsInode, put_inode, zero_inode}
use fall_oslab.Extent.Inode.{osfs_get_free_inode, osfs_alloc_extent}
use fall_oslab.Extent.Inode.Alloc.{AllocatesExtent, osfs_alloc_extent_lem}
use fall_oslab.Extent.Inode.Numbers.{
  AllocatesInode, osfs_get_free_inode_lem, osfs_get_osfs_inode_lem,
}
use fall_oslab.Extent.Dir.{
  CreateOut, entries, entry_at, entry_count, inode_no_at, write_entry, try_extent, append_entry,
  fill_inode, create_numbered, osfs_create,
}

-- The offset at which the directory's next entry goes.
abbrev pub next_entry : Kernel → SbInfo → (dir : Inode) → ℕ
next_entry k sb dir =
    let parent = sb.inode_table dir.i_private in entry_at (entries k parent) (entry_count parent)

-- A file was created under the number `ino`.
pub record Made (k : Kernel) (sb : SbInfo) (dir : Inode) (name : List ℕ) (ino : ℕ) (out : CreateOut)
    : Type 0 where
  pub ok_result : out.result ≡ ok tt
  pub was_free : (1 ≤ ino) × (ino < sb.inode_count) × (sb.inode_bitmap ino ≡ false)
  pub number : inode_no_at out.sb (next_entry k sb dir) ≡ ino
  pub filename : load_bytes out.sb.data_blocks (next_entry k sb dir) (length name) ≡ name
  pub dir_size :
      (out.sb.inode_table dir.i_private).i_size ≡ add32 (sb.inode_table dir.i_private).i_size 260
  pub entry : (out.sb.inode_table ino).i_ino ≡ ino
  pub others : (q : ℕ) → q ≢ ino → q ≢ dir.i_private → out.sb.inode_table q ≡ sb.inode_table q
  pub bytes :
      (r : ℕ)
      → (r < next_entry k sb dir) ⊎ (next_entry k sb dir + 260 ≤ r)
      → out.sb.data_blocks r ≡ sb.data_blocks r

-- The outcome of osfs_create: no number is free; new_inode failed, and the code goes on with NULL;
-- or a file was created.
abbrev pub Creates :
    Kernel → (fresh : Option Inode) → SbInfo → (dir : Inode) → List ℕ → Option CreateOut → Type 0
Creates k fresh sb dir name none = fresh ≡ none
Creates k fresh sb dir name (some out) =
    ((out.result ≡ err enospc)
      × (out.sb ≡ sb)
      × ((j : ℕ) → 1 ≤ j → j < sb.inode_count → sb.inode_bitmap j ≡ true))
    ⊎ ((ino : ℕ) × Made k sb dir name ino out)

write_entry-number :
    (m : ℕ → ℕ) (p : ℕ) (name : List ℕ) (ino : ℕ)
    → ino < 2 ^ 32
    → load_u32 (write_entry m p name ino) (p + 256) ≡ ino
unfolding write_entry
write_entry-number m p name ino h = load_u32-store_u32 _ (p + 256) ino h

write_entry-filename :
    (m : ℕ → ℕ) (p : ℕ) (name : List ℕ) (ino : ℕ)
    → length name ≤ 255
    → load_bytes (write_entry m p name ino) p (length name) ≡ name
unfolding write_entry
write_entry-filename m p name ino h =
    load_bytes_agree _ (store_bytes m p name) p (length name)
      (λ q a b. store_u32_apart _ (p + 256) q ino (inl (omega arith)))
    ∙ load_bytes-store_bytes name m p

write_entry_apart :
    (m : ℕ → ℕ) (p : ℕ) (name : List ℕ) (ino r : ℕ)
    → length name ≤ 255
    → (r < p) ⊎ (p + 260 ≤ r)
    → write_entry m p name ino r ≡ m r
unfolding write_entry
write_entry_apart m p name ino r h (inl o) =
    store_u32_apart _ (p + 256) r ino (inl (omega arith)) ∙ store_bytes-below name m p r o
write_entry_apart m p name ino r h (inr o) =
    store_u32_apart _ (p + 256) r ino (inr (omega arith))
    ∙ store_bytes-above name m p r (omega arith)

-- The new file's extent changes its own entry only, and no byte.
record Keeps (p : ℕ) (sb sb' : SbInfo) : Type 0 where
  others : (q : ℕ) → q ≢ p → sb'.inode_table q ≡ sb.inode_table q
  number : (sb'.inode_table p).i_ino ≡ (sb.inode_table p).i_ino
  bytes : sb'.data_blocks ≡ sb.data_blocks

try_extent-Keeps :
    (sb : SbInfo) (p : ℕ) (r : SbInfo × Result ℕ)
    → AllocatesExtent sb 5 r
    → Keeps p sb (try_extent (sb.inode_table p) p r)
unfolding try_extent
try_extent-Keeps sb p (sb', err e) a =
    rw a.1 (record { others = λ q ne. refl; number = refl; bytes = refl })
try_extent-Keeps sb p (sb', ok i) a =
    rw a.4
      (record { others = λ q ne. rw (ne→== q p ne); number = rw (eq→== p p refl); bytes = refl })

-- What the end of osfs_create does, with the entry's offset `p`.
record Appends (sb : SbInfo) (d p : ℕ) (name : List ℕ) (ino : ℕ) (sb' : SbInfo) : Type 0 where
  number : inode_no_at sb' p ≡ ino
  filename : load_bytes sb'.data_blocks p (length name) ≡ name
  dir_size : (sb'.inode_table d).i_size ≡ add32 (sb.inode_table d).i_size 260
  others : (q : ℕ) → q ≢ d → sb'.inode_table q ≡ sb.inode_table q
  bytes : (r : ℕ) → (r < p) ⊎ (p + 260 ≤ r) → sb'.data_blocks r ≡ sb.data_blocks r

append_entry-Appends :
    (k : Kernel) (sb : SbInfo) (dir : Inode) (name : List ℕ) (ino : ℕ)
    → length name ≤ 255
    → ino < 2 ^ 32
    → Appends sb dir.i_private (next_entry k sb dir) name ino (append_entry k sb dir name ino)
unfolding append_entry
append_entry-Appends k sb dir name ino short small =
    let p = next_entry k sb dir in
    record {
      number = write_entry-number sb.data_blocks p name ino small;
      filename = write_entry-filename sb.data_blocks p name ino short;
      dir_size = rw (eq→== dir.i_private dir.i_private refl) refl;
      others = λ q ne. rw (ne→== q dir.i_private ne) refl;
      bytes = λ r o. write_entry_apart sb.data_blocks p name ino r short o;
    }

fill_inode-Made :
    (k : Kernel) (now : Timespec) (sb sb' : SbInfo) (dir blank : Inode) (name : List ℕ)
    (mode ino : ℕ)
    → length name ≤ 255
    → ino < 2 ^ 32
    → sb.block_count ≡ 20
    → dir.i_private ≢ ino
    → (1 ≤ ino) × (ino < sb.inode_count) × (sb.inode_bitmap ino ≡ false)
    → sb' ≡ record sb {
      inode_bitmap = update sb.inode_bitmap ino true;
      nr_free_inodes = sub32 sb.nr_free_inodes 1;
    }
    → Made k sb dir name ino (fill_inode k now sb' dir blank name mode ino ino)
unfolding fill_inode
fill_inode-Made k now sb sb' dir blank name mode ino short small count ne free e =
    let oi : OsfsInode = record zero_inode { i_ino = ino; i_mode = mode } in
    let sb1 = put_inode sb' ino oi in
    let sb2 = try_extent oi ino (osfs_alloc_extent sb1 5) in
    let own : sb1.inode_table ino ≡ oi = rw (eq→== ino ino refl) refl in
    let away : (q : ℕ) → q ≢ ino → sb1.inode_table q ≡ sb.inode_table q =
      λ q h. rw (ne→== q ino h) (ap (λ (t : SbInfo). t.inode_table q) e) in
    let blocks : sb1.block_count ≡ 20 = ap (λ (t : SbInfo). t.block_count) e ∙ count in
    let s : Keeps ino sb1 sb2 =
      subst (λ o. Keeps ino sb1 (try_extent o ino (osfs_alloc_extent sb1 5))) own
        (try_extent-Keeps sb1 ino (osfs_alloc_extent sb1 5)
          (osfs_alloc_extent_lem sb1 5 (omega (arith, blocks)) (omega (arith, blocks)))) in
    let parent : sb2.inode_table dir.i_private ≡ sb.inode_table dir.i_private =
      s.others dir.i_private ne ∙ away dir.i_private ne in
    let place : next_entry k sb2 dir ≡ next_entry k sb dir =
      ap (λ (t : OsfsInode). entry_at (entries k t) (entry_count t)) parent in
    let a : Appends sb2 dir.i_private (next_entry k sb dir) name ino
        (append_entry k sb2 dir name ino) =
      subst (λ p. Appends sb2 dir.i_private p name ino (append_entry k sb2 dir name ino)) place
        (append_entry-Appends k sb2 dir name ino short small) in
    record {
      ok_result = refl;
      was_free = free;
      number = a.number;
      filename = a.filename;
      dir_size = a.dir_size ∙ ap (λ (t : OsfsInode). add32 t.i_size 260) parent;
      entry =
          ap (λ (t : OsfsInode). t.i_ino) (a.others ino (λ h. ne (sym h)))
          ∙ s.number
          ∙ ap (λ (t : OsfsInode). t.i_ino) own;
      others = λ q h g. a.others q g ∙ s.others q h ∙ away q h;
      bytes = λ r o. a.bytes r o ∙ ap (λ m. m r) s.bytes ∙ ap (λ (t : SbInfo). t.data_blocks r) e;
    }

create_numbered-Creates :
    (k : Kernel) (fresh : Option Inode) (now : Timespec) (sb : SbInfo) (dir : Inode) (name : List ℕ)
    (mode : ℕ) (r : SbInfo × Result ℕ)
    → length name ≤ 255
    → sb.block_count ≡ 20
    → sb.inode_count ≡ 20
    → sb.inode_bitmap dir.i_private ≡ true
    → AllocatesInode sb r
    → Creates k fresh sb dir name (create_numbered k fresh now dir name mode r)
unfolding create_numbered
create_numbered-Creates k fresh now sb dir name mode (sb', err e) short count numbers taken a =
    inl (refl, a.0, a.1)
create_numbered-Creates k none now sb dir name mode (sb', ok ino) short count numbers taken a = refl
create_numbered-Creates k (some blank) now sb dir name mode (sb', ok ino) short count numbers taken
      a =
    rw
      (
        Creates,
        osfs_get_osfs_inode_lem sb' ino a.0
            (omega (arith, a.1, ap (λ (t : SbInfo). t.inode_count) a.3)),
      )
      (inr (
        ino,
        fill_inode-Made k now sb sb' dir blank name mode ino short (omega (arith, a.1)) count
            (λ h. grind (arith, sym taken ∙ ap sb.inode_bitmap h ∙ a.2)) (a.0, a.1, a.2) a.3,
      ))

-- osfs_create for a name of at most 255 bytes in a directory whose inode number is taken, on a
-- region of 20 inodes and 20 blocks. There are three outcomes. It writes through a NULL pointer, and
-- then new_inode failed. It returns -ENOSPC and changes nothing, and then every number is taken. Or
-- it returns 0 with a number that was free: then the name and the number stand at the directory's
-- next entry, wherever that is, no byte outside of its 260 bytes changes, the directory's size grows
-- by 260, and no entries of the table change but those of the file and of the directory.
pub osfs_create-Creates_extent :
    (k : Kernel) (fresh : Option Inode) (now : Timespec) (sb : SbInfo) (dir : Inode) (name : List ℕ)
    (mode : ℕ)
    → length name ≤ 255
    → sb.block_count ≡ 20
    → sb.inode_count ≡ 20
    → sb.inode_bitmap dir.i_private ≡ true
    → Creates k fresh sb dir name (osfs_create k fresh now sb dir name mode)
unfolding osfs_create
osfs_create-Creates_extent k fresh now sb dir name mode short count numbers taken =
    create_numbered-Creates k fresh now sb dir name mode (osfs_get_free_inode sb) short count
      numbers taken (osfs_get_free_inode_lem sb (omega (arith, numbers)))
