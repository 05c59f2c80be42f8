-- ===== src/Osfs/File/Changes.antt =====
-- Lab4/Lab4_Template_Done/file.c: what the two halves of osfs_write change of the superblock.
use mathlib.Core.Path.{subst}
use native.Mathlib.Decide.{dec_le}
use fall_oslab.Base.{
  ℕ, ◌+◌, ◌^◌, ◌≤◌, ◌<◌, ◌≡◌, ◌≢◌, refl, ap, sym, ◌∙◌, ◌⊎◌, inl, inr, List, [], some, ◌==◌, mul32,
  arith, Bool-cases, length, ne→==, eq→==, ==→eq, store_bytes, store_bytes-below, store_bytes-above,
  store_bytes_none,
}
use fall_oslab.Kernel.{Kernel, Result, ok, err, Inode, Timespec, IsCopy}
use fall_oslab.Osfs.Types.{SbInfo}
use fall_oslab.Osfs.Inode.{osfs_alloc_data_block}
use fall_oslab.Osfs.Inode.Alloc.{Allocates, IsFirstClear, take_block}
use fall_oslab.Osfs.Inv.{IsValid, alloc_in_valid}
use fall_oslab.Osfs.File.{give_block, ensure_block, write_block}
use fall_oslab.Osfs.File.Valid.{write_len}

-- The offset `r` is outside of the block of the entry `p`.
abbrev pub IsOutside : Kernel → SbInfo → (p r : ℕ) → Type 0
IsOutside k sb p r =
    let base = mul32 (sb.inode_table p).i_block k.block_size in
    (r < base) ⊎ (base + k.block_size ≤ r)

-- Of the superblock, `sb'` differs from `sb` in the inode table and the data bytes at most: the
-- bitmaps, the counters and the constants are the same.
abbrev pub SameBooks : (sb sb' : SbInfo) → Type 0
SameBooks sb sb' = sb' ≡ record sb { inode_table = sb'.inode_table; data_blocks = sb'.data_blocks }

-- What a write does to the bitmaps and counters: nothing, and the file keeps its block; or the file
-- had none and gets the lowest free one, which is marked and counted.
abbrev pub TakesBlock : (p : ℕ) → (sb sb' : SbInfo) → Type 0
TakesBlock p sb sb' =
    (SameBooks sb sb' × ((sb'.inode_table p).i_block ≡ (sb.inode_table p).i_block))
    ⊎ (((sb.inode_table p).i_blocks ≡ 0)
        × IsFirstClear sb.block_bitmap 0 20 (some (sb'.inode_table p).i_block)
        × SameBooks (take_block sb (sb'.inode_table p).i_block) sb')

-- copy_from_user is asked for what fits behind `pos`, or for so much that it refuses.
stored_fits :
    {copy : List ℕ → ℕ → List ℕ × ℕ} (bytes : List ℕ) (b pos len : ℕ)
    → IsCopy copy
    → b ≤ 65536
    → pos + len < 2 ^ 63
    → (pos + length (copy bytes (write_len b pos len)).0 ≤ b)
      ⊎ ((copy bytes (write_len b pos len)).0 ≡ [])
stored_fits {copy} bytes b pos len c small h = elim (dec_le pos b) [
  | yes le ↦ inl (ground (arith, c.bounded bytes (write_len b pos len)))
  | no gt ↦
      inr (ap (λ (t : List ℕ × ℕ). t.0) (c.refused bytes (write_len b pos len) (ground arith)))
]

store_bytes_outside :
    (m : ℕ → ℕ) (base b pos r : ℕ) (bytes : List ℕ)
    → (pos + length bytes ≤ b) ⊎ (bytes ≡ [])
    → (r < base) ⊎ (base + b ≤ r)
    → store_bytes m (base + pos) bytes r ≡ m r
store_bytes_outside m base b pos r bytes (inl fits) (inl o) =
    store_bytes-below bytes m (base + pos) r (omega arith)
store_bytes_outside m base b pos r bytes (inl fits) (inr o) =
    store_bytes-above bytes m (base + pos) r (omega arith)
store_bytes_outside m base b pos r bytes (inr e) o =
    ap (λ t. store_bytes m (base + pos) t r) e ∙ store_bytes_none m (base + pos) r

-- What the steps of osfs_write from 3 on keep: the entries of other files, the file's block, the
-- bytes outside of that block, and the bitmaps and counters.
pub record Keeps (k : Kernel) (p : ℕ) (sb sb' : SbInfo) : Type 0 where
  pub others : (q : ℕ) → q ≢ p → sb'.inode_table q ≡ sb.inode_table q
  pub block : (sb'.inode_table p).i_block ≡ (sb.inode_table p).i_block
  pub bytes : (r : ℕ) → IsOutside k sb p r → sb'.data_blocks r ≡ sb.data_blocks r
  pub books : SameBooks sb sb'

pub write_block-Keeps :
    {k : Kernel} {sb : SbInfo} {copy : List ℕ → ℕ → List ℕ × ℕ} (now now' : Timespec)
    (inode : Inode) (bytes : List ℕ) (len pos : ℕ)
    → IsValid k sb
    → IsCopy copy
    → pos + len < 2 ^ 63
    → Keeps k inode.i_private sb (write_block k copy now now' sb inode bytes len pos).sb
unfolding write_block
write_block-Keeps {k} {sb} {copy} now now' inode bytes len pos v c h =
    let p = inode.i_private in
    let b = sb.block_size in
    let stored = (copy bytes (write_len b pos len)).0 in
    let base = mul32 (sb.inode_table p).i_block b in
    let out : (r : ℕ)
        → IsOutside k sb p r
        → store_bytes sb.data_blocks (base + pos) stored r ≡ sb.data_blocks r =
      λ r o.
        store_bytes_outside sb.data_blocks base b pos r stored
          (stored_fits bytes b pos len c (omega arith) h)
          (subst (λ t. let at = mul32 (sb.inode_table p).i_block t in (r < at) ⊎ (at + t ≤ r))
            (sym v.block_size_eq) o) in
    elim (Bool-cases ((copy bytes (write_len b pos len)).1 == 0)) [
      | inl e ↦ rw e (record {
        others = λ q ne. rw (ne→== q p ne);
        block = rw (eq→== p p refl);
        bytes = out;
        books = refl;
      })
      | inr e ↦ rw e (record { others = λ q ne. refl; block = refl; bytes = out; books = refl })
    ]

-- Step 2 changes no byte, of the table the entry `p` alone, and the bitmap for a new block only.
pub record Prepares (p : ℕ) (sb sb' : SbInfo) : Type 0 where
  pub others : (q : ℕ) → q ≢ p → sb'.inode_table q ≡ sb.inode_table q
  pub bytes : sb'.data_blocks ≡ sb.data_blocks
  pub books : TakesBlock p sb sb'

give_block-Prepares :
    {sb : SbInfo} (p : ℕ) (r : SbInfo × Result ℕ)
    → (sb.inode_table p).i_blocks ≡ 0
    → Allocates take_block sb.block_bitmap 0 20 sb r
    → Prepares p sb (give_block (sb.inode_table p) p r).0
unfolding give_block
give_block-Prepares p (sb', err e) z a =
    rw a.1 (record { others = λ q ne. refl; bytes = refl; books = inl (refl, refl) })
give_block-Prepares p (sb', ok i) z a = rw a.0 (record {
  others = λ q ne. rw (ne→== q p ne);
  bytes = refl;
  books = rw (eq→== p p refl) (inr (z, a.1, refl));
})

pub ensure_block-Prepares :
    {k : Kernel} {sb : SbInfo} (p : ℕ) → IsValid k sb → Prepares p sb (ensure_block sb p).0
unfolding ensure_block
ensure_block-Prepares {k} {sb} p v = elim (Bool-cases ((sb.inode_table p).i_blocks == 0)) [
  | inl e ↦ rw e (
      give_block-Prepares p (osfs_alloc_data_block sb) (==→eq (sb.inode_table p).i_blocks 0 e)
        (alloc_in_valid v))
  | inr e ↦ rw e (record { others = λ q ne. refl; bytes = refl; books = inl (refl, refl) })
]

books_trans : (sb sb' sb'' : SbInfo) → SameBooks sb' sb'' → SameBooks sb sb' → SameBooks sb sb''
books_trans sb sb' sb'' e f =
    e
    ∙ ap
        (λ (t : SbInfo). record t {
          inode_table = sb''.inode_table;
          data_blocks = sb''.data_blocks;
        })
        f

-- Steps 3 to 6 keep what step 2 did to the bitmaps and counters.
pub TakesBlock-Keeps :
    {k : Kernel} (sb sb' sb'' : SbInfo) (p : ℕ)
    → Keeps k p sb' sb''
    → TakesBlock p sb sb'
    → TakesBlock p sb sb''
TakesBlock-Keeps sb sb' sb'' p s (inl (e, b)) = inl (books_trans sb sb' sb'' s.books e, s.block ∙ b)
TakesBlock-Keeps sb sb' sb'' p s (inr (z, f, e)) = inr (
  z,
  subst (λ i. IsFirstClear sb.block_bitmap 0 20 (some i)) (sym s.block) f,
  subst (λ i. SameBooks (take_block sb i) sb'') (sym s.block)
      (books_trans (take_block sb (sb'.inode_table p).i_block) sb' sb'' s.books e),
)
