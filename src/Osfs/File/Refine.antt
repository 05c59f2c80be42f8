-- ===== src/Osfs/File/Refine.antt =====
-- osfs_read and osfs_write against a file that is a list of bytes.
use mathlib.Core.Path.{ap₂, subst}
use fall_oslab.Base.{
  ℕ, ◌+◌, ◌-◌, ◌^◌, ◌≤◌, ◌<◌, min, ◌≡◌, ◌≢◌, refl, ap, sym, ◌∙◌, inl, inr, List, ◌++◌, ltb,
  if◌then◌else◌, add64, sub64, mul32, arith, length, ne→==, eq→==, take, drop, length-take,
  load_bytes, store_bytes, load_bytes-add, take-load_bytes, load_bytes_none, drop-load_bytes,
  load_bytes-store_bytes, load_bytes-store_bytes_apart, length-load_bytes,
}
use fall_oslab.Kernel.{Kernel, ok, Inode, Timespec, IsCopy}
use fall_oslab.Osfs.Types.{SbInfo, put_inode}
use fall_oslab.Osfs.Inv.{IsValid}
use fall_oslab.Osfs.File.{osfs_read, ensure_block, write_block, finish_write, osfs_write}
use fall_oslab.Osfs.File.Valid.{write_len}

-- The bytes of the file whose entry is `p`.
abbrev pub contents : Kernel → SbInfo → ℕ → List ℕ
contents k sb p =
    load_bytes sb.data_blocks (mul32 (sb.inode_table p).i_block k.block_size)
      (sb.inode_table p).i_size

-- The specification of a write at `pos` to a file of at most `b` bytes.
unfoldable pub overwrite : (b : ℕ) → List ℕ → (pos : ℕ) → List ℕ → List ℕ
overwrite b c pos bytes =
    let n = min (length bytes) (b - pos) in take pos c ++ (take n bytes ++ drop (pos + n) c)

read_slice :
    (m : ℕ → ℕ) (base size len pos : ℕ)
    → load_bytes m (base + pos) (min len (size - pos))
      ≡ take len (drop pos (load_bytes m base size))
read_slice m base size len pos = rw (drop-load_bytes, take-load_bytes)

-- osfs_read reduced to one case.
read_out :
    {k : Kernel} {sb : SbInfo} (left : ℕ → ℕ) (inode : Inode) (len pos n : ℕ)
    → IsValid k sb
    → (sb.inode_table inode.i_private).i_blocks ≢ 0
    → ((n : ℕ) → left n ≡ 0)
    → pos + len < 2 ^ 64
    → n ≡ min len ((sb.inode_table inode.i_private).i_size - pos)
    → osfs_read k left sb inode len pos ≡ record {
      result = ok n;
      pos = pos + n;
      buf =
          load_bytes sb.data_blocks
            (mul32 (sb.inode_table inode.i_private).i_block k.block_size + pos)
            n;
    }
unfolding osfs_read
read_out {k} {sb} left inode len pos n v has_block all h e =
    let size = (sb.inode_table inode.i_private).i_size in
    let base = mul32 (sb.inode_table inode.i_private).i_block k.block_size in
    ground (
      arith,
      all (if ltb size (add64 pos len) then sub64 size pos else len),
      v.sized inode.i_private,
      load_bytes_none sb.data_blocks (base + pos) n,
    )

-- osfs_read returns the bytes of the file from the position on, at most `len` of them, and moves the
-- position by their number: when copy_to_user succeeds, for a file with a block, in a valid region,
-- and for a position and a length whose sum does not wrap. At or behind the end it returns 0 bytes.
pub osfs_read_lem :
    {k : Kernel} {sb : SbInfo} (left : ℕ → ℕ) (inode : Inode) (len pos : ℕ)
    → IsValid k sb
    → (sb.inode_table inode.i_private).i_blocks ≢ 0
    → ((n : ℕ) → left n ≡ 0)
    → pos + len < 2 ^ 64
    → let out = osfs_read k left sb inode len pos in
      (out.buf ≡ take len (drop pos (contents k sb inode.i_private)))
      × (out.result ≡ ok (length out.buf))
      × (out.pos ≡ pos + length out.buf)
unfolding osfs_read
osfs_read_lem {k} {sb} left inode len pos v has_block all h =
    let oi = sb.inode_table inode.i_private in
    let n = min len (oi.i_size - pos) in
    let base = mul32 oi.i_block k.block_size in
    rw (read_out left inode len pos n v has_block all h refl) (
      read_slice sb.data_blocks base oi.i_size len pos,
      ap ok (sym (length-load_bytes sb.data_blocks (base + pos) n)),
      ap (◌+◌ pos) (sym (length-load_bytes sb.data_blocks (base + pos) n)),
    )

overwrite_bytes :
    (m : ℕ → ℕ) (base pos size size' : ℕ) (bytes : List ℕ)
    → pos ≤ size
    → size' ≡ (if ltb size (pos + length bytes) then pos + length bytes else size)
    → load_bytes (store_bytes m (base + pos) bytes) base size'
      ≡ take pos (load_bytes m base size)
        ++ (bytes ++ drop (pos + length bytes) (load_bytes m base size))
overwrite_bytes m base pos size size' bytes le e =
    let m' = store_bytes m (base + pos) bytes in
    let n = length bytes in
    load_bytes-add m' base pos (size' - pos) size' (ground arith)
    ∙ ap₂ ◌++◌
        (load_bytes-store_bytes_apart bytes m (base + pos) base pos (inl (omega arith))
          ∙ ap (load_bytes m base) {y = min pos size} (omega arith)
          ∙ sym (take-load_bytes m base pos size))
        (load_bytes-add m' (base + pos) n (size' - pos - n) (size' - pos) (ground arith)
          ∙ ap₂ ◌++◌ (load_bytes-store_bytes bytes m (base + pos)) (
              load_bytes-store_bytes_apart bytes m (base + pos) (base + pos + n) (size' - pos - n)
                (inr (omega arith))
              ∙ ap₂ (load_bytes m) {y = base + (pos + n)} {v = size - (pos + n)} (omega arith)
                  (ground arith)
              ∙ sym (drop-load_bytes m base (pos + n) size)))

-- What osfs_write leaves in the region when it transfers n bytes.
abbrev pub written : SbInfo → (p : ℕ) → Timespec → (pos n : ℕ) → List ℕ → SbInfo
written sb p now' pos n stored =
    let oi = sb.inode_table p in
    put_inode
      (record sb {
        data_blocks = store_bytes sb.data_blocks (mul32 oi.i_block sb.block_size + pos) stored;
      })
      p
      (record oi {
        i_size = if ltb oi.i_size (pos + n) then pos + n else oi.i_size;
        i_mtime = now';
        i_atime = now';
        i_ctime = now';
      })

-- osfs_write reduced to one case.
write_out :
    (k : Kernel) (sb : SbInfo) (copy : List ℕ → ℕ → List ℕ × ℕ) (now now' : Timespec)
    (inode : Inode) (bytes : List ℕ) (len pos n : ℕ)
    → (sb.inode_table inode.i_private).i_blocks ≢ 0
    → pos ≤ sb.block_size
    → sb.block_size ≤ 65536
    → pos + len < 2 ^ 64
    → n ≡ min len (sb.block_size - pos)
    → (copy bytes n).1 ≡ 0
    → let out = osfs_write k copy now now' sb inode bytes len pos in
      (out.result ≡ ok n)
      × (out.pos ≡ pos + n)
      × (out.sb ≡ written sb inode.i_private now' pos n (copy bytes n).0)
unfolding osfs_write ensure_block finish_write write_block
write_out k sb copy now now' inode bytes len pos n has_block le small h e full =
    let p = inode.i_private in
    let e1 : write_len sb.block_size pos len ≡ n = ground arith in
    let e2 : add64 pos n ≡ pos + n = omega arith in
    rw (ne→== (sb.inode_table p).i_blocks 0 has_block, e1, full, e2) (refl, refl, refl)

contents-written :
    (k : Kernel) (sb : SbInfo) (p : ℕ) (now' : Timespec) (pos n : ℕ) (stored : List ℕ)
    → sb.block_size ≡ k.block_size
    → pos ≤ (sb.inode_table p).i_size
    → length stored ≡ n
    → contents k (written sb p now' pos n stored) p
      ≡ take pos (contents k sb p) ++ (stored ++ drop (pos + n) (contents k sb p))
contents-written k sb p now' pos n stored same le len =
    let oi = sb.inode_table p in
    let base = mul32 oi.i_block k.block_size in
    let size' = if ltb oi.i_size (pos + n) then pos + n else oi.i_size in
    let c = contents k sb p in
    rw (eq→== p p refl) (
      subst
        (λ t.
          load_bytes (store_bytes sb.data_blocks (mul32 oi.i_block t + pos) stored) base size'
          ≡ take pos c ++ (stored ++ drop (pos + n) c))
        (sym same)
        (overwrite_bytes sb.data_blocks base pos oi.i_size size' stored le (ground arith)
          ∙ ap (λ t. take pos c ++ (stored ++ drop (pos + t) c)) len))

-- osfs_write overwrites the file's bytes from the position on, with as many bytes of the buffer as
-- fit into the block, returns their number and moves the position by it. The file keeps its other
-- bytes. This is for a file that has a block, a position within the file, a copy_from_user that
-- succeeds, and a position and a length whose sum does not wrap.
pub osfs_write_lem :
    {k : Kernel} {sb : SbInfo} (copy : List ℕ → ℕ → List ℕ × ℕ) (now now' : Timespec)
    (inode : Inode) (bytes : List ℕ) (pos : ℕ)
    → IsValid k sb
    → IsCopy copy
    → (sb.inode_table inode.i_private).i_blocks ≢ 0
    → pos ≤ (sb.inode_table inode.i_private).i_size
    → pos + length bytes < 2 ^ 64
    → (copy bytes (min (length bytes) (k.block_size - pos))).1 ≡ 0
    → let out = osfs_write k copy now now' sb inode bytes (length bytes) pos in
      let n = min (length bytes) (k.block_size - pos) in
      (out.result ≡ ok n)
      × (out.pos ≡ pos + n)
      × (contents k out.sb inode.i_private
          ≡ overwrite k.block_size (contents k sb inode.i_private) pos bytes)
unfolding overwrite
osfs_write_lem {k} {sb} copy now now' inode bytes pos v c has_block le h full =
    let p = inode.i_private in
    let n = min (length bytes) (k.block_size - pos) in
    let old = contents k sb p in
    let fits = v.sized p in
    let w =
      write_out k sb copy now now' inode bytes (length bytes) pos n has_block (omega arith)
        (omega arith) h (omega arith) full in
    (
      w.0,
      w.1,
      ap (λ s. contents k s p) w.2
          ∙ contents-written k sb p now' pos n (copy bytes n).0 v.block_size_eq le
              (omega (arith, ap length (c.full bytes n full), length-take n bytes))
          ∙ ap (λ t. take pos old ++ (t ++ drop (pos + n) old)) (c.full bytes n full),
    )
