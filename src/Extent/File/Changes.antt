-- ===== src/Extent/File/Changes.antt =====
-- Lab4/Lab4_Template_Optimize/file.c: what the two halves of osfs_write change of the superblock.
use native.Mathlib.Nat.{add-mul}
use mathlib.Core.Path.{subst}
use native.Mathlib.Decide.{dec_le}
use fall_oslab.Base.{
  ℕ, ◌+◌, ◌*◌, ◌^◌, ◌≤◌, ◌<◌, ◌≡◌, ◌≢◌, refl, ap, sym, ◌∙◌, ◌⊎◌, inl, inr, List, [], Option, some,
  ◌==◌, mul32, add64, sub64, ltb, if◌then◌else◌, arith, Bool, Bool-cases, sub32, length, ne→==,
  eq→==, ==→eq, store_bytes, store_bytes-below, store_bytes-above, store_bytes_none,
}
use fall_oslab.Kernel.{Kernel, Result, ok, err, Errno, Inode, IsCopy}
use fall_oslab.Extent.Types.{SbInfo, OsfsExtent}
use fall_oslab.Extent.Inode.{osfs_alloc_extent}
use fall_oslab.Extent.Inode.Alloc.{AllocatesExtent, IsFirstExtent, Sets, osfs_alloc_extent_lem}
use fall_oslab.Extent.File.{give_extent, ensure_extent, write_extent}

-- The offset `r` is outside of the blocks of an extent.
abbrev pub IsOutside : Kernel → OsfsExtent → (r : ℕ) → Type 0
IsOutside k e r = (r < e.ee_start * k.block_size) ⊎ ((e.ee_start + e.ee_len) * k.block_size ≤ r)

-- Of the superblock, `sb'` differs from `sb` in the inode table and the data bytes at most: the
-- bitmaps, the counters and the constants are the same.
abbrev pub SameBooks : (sb sb' : SbInfo) → Type 0
SameBooks sb sb' = sb' ≡ record sb { inode_table = sb'.inode_table; data_blocks = sb'.data_blocks }

-- What osfs_alloc_extent does to the superblock when it gives out the five blocks from `i` on.
abbrev pub take_extent : SbInfo → (bits : ℕ → Bool) → SbInfo
take_extent sb bits = record sb { block_bitmap = bits; nr_free_blocks = sub32 sb.nr_free_blocks 5 }

-- What a write does to the bitmaps and counters: nothing, and the file keeps its extent; or the file
-- had none and gets the lowest five free blocks in a row, which are marked and counted.
abbrev pub TakesExtent : (p : ℕ) → (sb sb' : SbInfo) → Type 0
TakesExtent p sb sb' =
    let e = (sb'.inode_table p).i_extent in
    (SameBooks sb sb' × (e ≡ (sb.inode_table p).i_extent))
    ⊎ (((sb.inode_table p).i_extent.ee_len ≡ 0)
        × (e.ee_len ≡ 5)
        × IsFirstExtent sb.block_bitmap 5 0 16 (some e.ee_start)
        × Sets sb.block_bitmap sb'.block_bitmap 5 e.ee_start
        × SameBooks (take_extent sb sb'.block_bitmap) sb')

mul32_small : (a b : ℕ) → a ≤ 20 → b ≤ 65536 → mul32 a b ≡ a * b
mul32_small a b h g = omega (arith, product a b h g)
  where
    product : (a b : ℕ) → a ≤ 20 → b ≤ 65536 → a * b ≤ 20 * 65536
    product a b h g = grind arith

abbrev capped : (b pos len : ℕ) → ℕ
capped b pos len = if ltb b (add64 pos len) then sub64 b pos else len

-- copy_from_user is asked for what fits behind `pos`, or for so much that it refuses.
stored_fits :
    {copy : List ℕ → ℕ → List ℕ × ℕ} (bytes : List ℕ) (b pos len : ℕ)
    → IsCopy copy
    → b < 2 ^ 31
    → pos + len < 2 ^ 63
    → (pos + length (copy bytes (capped b pos len)).0 ≤ b)
      ⊎ ((copy bytes (capped b pos len)).0 ≡ [])
stored_fits {copy} bytes b pos len c small h = elim (dec_le pos b) [
  | yes le ↦ inl (ground (arith, c.bounded bytes (capped b pos len)))
  | no gt ↦ inr (ap (λ (t : List ℕ × ℕ). t.0) (c.refused bytes (capped b pos len) (ground arith)))
]

store_bytes_outside :
    (m : ℕ → ℕ) (base b pos r : ℕ) (bytes : List ℕ)
    → (pos + length bytes ≤ b) ⊎ (bytes ≡ [])
    → (r < base) ⊎ (base + b ≤ r)
    → store_bytes m (base + pos) bytes r ≡ m r
store_bytes_outside m base b pos r bytes (inl fits) (inl o) =
    store_bytes-below bytes m (base + pos) r (omega arith)
store_bytes_outside m base b pos r bytes (inl fits) (inr o) =
    store_bytes-above bytes m (base + pos) r (omega arith)
store_bytes_outside m base b pos r bytes (inr e) o =
    ap (λ t. store_bytes m (base + pos) t r) e ∙ store_bytes_none m (base + pos) r

-- The arithmetic of the two addresses, for an extent inside of the region.
outside_bytes :
    (start n b r : ℕ)
    → start + n ≤ 20
    → b ≤ 65536
    → (r < start * b) ⊎ ((start + n) * b ≤ r)
    → (r < mul32 start b) ⊎ (mul32 start b + mul32 n b ≤ r)
outside_bytes start n b r fits small (inl o) =
    inl (omega (arith, mul32_small start b (omega arith) small))
outside_bytes start n b r fits small (inr o) = inr (
    omega (
      arith,
      mul32_small start b (omega arith) small,
      mul32_small n b (omega arith) small,
      add-mul start n b,
    ))

cap_small : (n b : ℕ) → n ≤ 20 → b ≤ 65536 → mul32 n b < 2 ^ 31
cap_small n b h g = omega (arith, mul32_small n b h g, product n b h g)
  where
    product : (a b : ℕ) → a ≤ 20 → b ≤ 65536 → a * b ≤ 20 * 65536
    product a b h g = grind arith

-- What the second half of osfs_write changes.
pub record Keeps (k : Kernel) (p : ℕ) (sb sb' : SbInfo) : Type 0 where
  pub others : (q : ℕ) → q ≢ p → sb'.inode_table q ≡ sb.inode_table q
  pub extent : (sb'.inode_table p).i_extent ≡ (sb.inode_table p).i_extent
  pub bytes :
      (r : ℕ) → IsOutside k (sb.inode_table p).i_extent r → sb'.data_blocks r ≡ sb.data_blocks r
  pub books : SameBooks sb sb'

abbrev pub IsExtent : OsfsExtent → Type 0
IsExtent e = e.ee_start + e.ee_len ≤ 20

pub write_extent-Keeps :
    {k : Kernel} {copy : List ℕ → ℕ → List ℕ × ℕ} (sb : SbInfo) (inode : Inode) (bytes : List ℕ)
    (len pos : ℕ)
    → IsCopy copy
    → k.block_size ≤ 65536
    → IsExtent (sb.inode_table inode.i_private).i_extent
    → pos + len < 2 ^ 63
    → Keeps k inode.i_private sb (write_extent k copy sb inode bytes len pos).sb
unfolding write_extent
write_extent-Keeps {k} {copy} sb inode bytes len pos c small fits h =
    let p = inode.i_private in
    let e = (sb.inode_table p).i_extent in
    let b = mul32 e.ee_len k.block_size in
    let base = mul32 e.ee_start k.block_size in
    let stored = (copy bytes (capped b pos len)).0 in
    let out : (r : ℕ)
        → IsOutside k e r
        → store_bytes sb.data_blocks (base + pos) stored r ≡ sb.data_blocks r =
      λ r o.
        store_bytes_outside sb.data_blocks base b pos r stored
          (stored_fits bytes b pos len c (cap_small e.ee_len k.block_size (omega arith) small) h)
          (outside_bytes e.ee_start e.ee_len k.block_size r fits small o) in
    elim (Bool-cases ((copy bytes (capped b pos len)).1 == 0)) [
      | inl t ↦ rw t (record {
        others = λ q ne. rw (ne→== q p ne);
        extent = rw (eq→== p p refl);
        bytes = out;
        books = refl;
      })
      | inr t ↦ rw t (record { others = λ q ne. refl; extent = refl; bytes = out; books = refl })
    ]

-- What the first half does: no byte changes, and the file has an extent inside of the region if
-- the write goes on.
pub record Prepares (p : ℕ) (sb : SbInfo) (out : SbInfo × Option Errno) : Type 0 where
  pub others : (q : ℕ) → q ≢ p → out.0.inode_table q ≡ sb.inode_table q
  pub extent : TakesExtent p sb out.0
  pub bytes : out.0.data_blocks ≡ sb.data_blocks
  pub fits : IsExtent (out.0.inode_table p).i_extent

give_extent-Prepares :
    (sb : SbInfo) (p : ℕ) (r : SbInfo × Result ℕ)
    → sb.block_count ≡ 20
    → IsExtent (sb.inode_table p).i_extent
    → (sb.inode_table p).i_extent.ee_len ≡ 0
    → AllocatesExtent sb 5 r
    → Prepares p sb (give_extent (sb.inode_table p) p r)
unfolding give_extent
give_extent-Prepares sb p (sb', err e) count fits z a =
    rw a.1 (record { others = λ q ne. refl; extent = inl (refl, refl); bytes = refl; fits = fits })
give_extent-Prepares sb p (sb', ok i) count fits z a = rw a.4 (record {
  others = λ q ne. rw (ne→== q p ne);
  extent =
      rw (eq→== p p refl)
        (inr (z, refl, (omega arith, omega (arith, a.0), a.1, λ j _ h. a.2 j h), a.3, refl));
  bytes = refl;
  fits = rw (eq→== p p refl) (omega (arith, a.0));
})

pub ensure_extent-Prepares :
    (sb : SbInfo) (p : ℕ)
    → sb.block_count ≡ 20
    → IsExtent (sb.inode_table p).i_extent
    → Prepares p sb (ensure_extent sb p)
unfolding ensure_extent
ensure_extent-Prepares sb p count fits =
    elim (Bool-cases ((sb.inode_table p).i_extent.ee_len == 0)) [
      | inl e ↦ rw e (
          give_extent-Prepares sb p (osfs_alloc_extent sb 5) count fits
            (==→eq (sb.inode_table p).i_extent.ee_len 0 e)
            (osfs_alloc_extent_lem sb 5 (omega arith) (omega arith)))
      | inr e ↦
          rw e
            (record { others = λ q ne. refl; extent = inl (refl, refl); bytes = refl; fits = fits })
    ]

books_trans : (sb sb' sb'' : SbInfo) → SameBooks sb' sb'' → SameBooks sb sb' → SameBooks sb sb''
books_trans sb sb' sb'' e f =
    e
    ∙ ap
        (λ (t : SbInfo). record t {
          inode_table = sb''.inode_table;
          data_blocks = sb''.data_blocks;
        })
        f

-- The second half keeps what the first did to the bitmaps and counters.
pub TakesExtent-Keeps :
    {k : Kernel} (sb sb' sb'' : SbInfo) (p : ℕ)
    → Keeps k p sb' sb''
    → TakesExtent p sb sb'
    → TakesExtent p sb sb''
TakesExtent-Keeps sb sb' sb'' p s (inl (e, b)) =
    inl (books_trans sb sb' sb'' s.books e, s.extent ∙ b)
TakesExtent-Keeps sb sb' sb'' p s (inr (z, n, f, t, e)) =
    let bits : sb'.block_bitmap ≡ sb''.block_bitmap =
      sym (ap (λ (x : SbInfo). x.block_bitmap) s.books) in
    inr (
      z,
      rw (s.extent, n),
      rw s.extent f,
      rw (s.extent, sym bits) t,
      subst (λ x. SameBooks (take_extent sb x) sb'') bits
          (books_trans (take_extent sb sb'.block_bitmap) sb' sb'' s.books e),
    )
