-- ===== src/Osfs/Dir/NewInode.antt =====
-- osfs_new_inode: what it takes and fills in, and what it leaves behind when it fails.
use mathlib.Core.Path.{subst}
use fall_oslab.Base.{
  ℕ, ◌≡◌, ◌≢◌, refl, ap, sym, ◌∙◌, ◌⊎◌, inl, inr, Option, none, some, true, not, ◌||◌, ◌==◌, arith,
  Bool-cases, update, update-update, sub32, eq→==, lt→leb,
}
use fall_oslab.Kernel.{Kernel, Result, ok, err, einval, enospc, enomem, Errno, Inode, Timespec}
use fall_oslab.Osfs.Types.{SbInfo, OsfsInode, put_inode}
use fall_oslab.Osfs.Inode.{osfs_get_free_inode, osfs_alloc_data_block}
use fall_oslab.Osfs.Inode.Alloc.{
  IsFirstClear, Allocates, take_inode, take_block, osfs_get_free_inode-Allocates,
  osfs_alloc_data_block-Allocates, osfs_get_osfs_inode_lem, count_clear-zero,
}
use fall_oslab.Osfs.Inv.{IsValid, take_inode-IsValid, take_block-IsValid, data_blocks-IsValid}
use fall_oslab.Osfs.Dir.{init_vfs_inode, init_osfs_inode, attach_block, place_inode, osfs_new_inode}

-- The region after osfs_new_inode has given number `ino` and block `b` to the entry `oi`. The count
-- of free inodes goes down by two: once in osfs_get_free_inode, and once more at the end.
abbrev pub with_inode : SbInfo → (ino b : ℕ) → OsfsInode → SbInfo
with_inode sb ino b oi = record sb {
  inode_bitmap = update sb.inode_bitmap ino true;
  block_bitmap = update sb.block_bitmap b true;
  nr_free_inodes = sub32 (sub32 sb.nr_free_inodes 1) 1;
  nr_free_blocks = sub32 sb.nr_free_blocks 1;
  inode_table = update sb.inode_table ino (record oi { i_block = b });
}

module _ (k : Kernel) (now now' : Timespec) (dir : Inode) (mode : ℕ) where
  -- The outcome of osfs_new_inode, by what it returns.
  pub data NewInode (fresh : Option Inode) (sb : SbInfo) : SbInfo × Result Inode → Type 0 where
    -- The lowest free number and the lowest free block go to a fresh entry.
    created :
        (blank : Inode) (ino b : ℕ)
        → fresh ≡ some blank
        → IsFirstClear sb.inode_bitmap 1 20 (some ino)
        → IsFirstClear sb.block_bitmap 0 20 (some b)
        → (inode : Inode) → inode ≡ init_vfs_inode k now blank dir mode ino
        → inode.i_size ≡ 0
        → (out : SbInfo × Result Inode)
        → out ≡ (
          with_inode sb ino b (init_osfs_inode now' inode ino),
          ok (record inode { i_private = ino }),
        )
        → NewInode fresh sb out
    -- Nothing is taken.
    refused :
        (e : Errno)
        → (e ≡ einval) ⊎ (e ≡ enospc)
        → (out : SbInfo × Result Inode) → out ≡ (sb, err e)
        → NewInode fresh sb out
    -- new_inode failed: the inode number stays taken.
    leaked :
        (ino : ℕ)
        → fresh ≡ none
        → IsFirstClear sb.inode_bitmap 1 20 (some ino)
        → (out : SbInfo × Result Inode) → out ≡ (take_inode sb ino, err enomem)
        → NewInode fresh sb out

  init_vfs_inode-empty :
      (blank : Inode) (ino : ℕ)
      → (k.s_isdir mode || k.s_isreg mode || k.s_islnk mode) ≡ true
      → (init_vfs_inode k now blank dir mode ino).i_size ≡ 0
  unfolding init_vfs_inode
  init_vfs_inode-empty blank ino sup = ground arith

  attach_NewInode :
      {fresh : Option Inode} {sb : SbInfo} (blank : Inode) (ino : ℕ) (inode : Inode)
      (r : SbInfo × Result ℕ)
      → IsValid k sb
      → sb.nr_free_blocks ≢ 0
      → fresh ≡ some blank
      → inode ≡ init_vfs_inode k now blank dir mode ino
      → inode.i_size ≡ 0
      → IsFirstClear sb.inode_bitmap 1 20 (some ino)
      → Allocates take_block sb.block_bitmap 0 20
          (put_inode (take_inode sb ino) ino (init_osfs_inode now' inode ino))
          r
      → NewInode fresh sb (attach_block inode ino r)
  unfolding attach_block
  attach_NewInode {sb = sb} blank ino inode (s, err e) v nz ef ei z first a =
      absurd
        (nz (v.counted ∙ count_clear-zero sb.block_bitmap 20 0 (λ j lo up. a.2 j lo (omega arith))))
  attach_NewInode {sb = sb} blank ino inode (s, ok b) v nz ef ei z first a =
      created blank ino b ef first a.1 inode ei z _ (
        rw (a.0, eq→== ino ino refl)
          (ap
            (λ t. (
              record (with_inode sb ino b (init_osfs_inode now' inode ino)) { inode_table = t },
              ok (record inode { i_private = ino }),
            ))
            (update-update sb.inode_table ino (init_osfs_inode now' inode ino) _)))

  placed_NewInode :
      {sb : SbInfo} (fresh : Option Inode) (ino : ℕ)
      → (k.s_isdir mode || k.s_isreg mode || k.s_islnk mode) ≡ true
      → IsValid k sb
      → sb.nr_free_blocks ≢ 0
      → IsFirstClear sb.inode_bitmap 1 20 (some ino)
      → NewInode fresh sb (place_inode k fresh now now' dir mode (take_inode sb ino, ok ino))
  unfolding place_inode
  placed_NewInode {sb} none ino sup v nz first =
      rw (lt→leb sb.inode_count ino (omega arith)) (leaked ino refl first _ refl)
  placed_NewInode {sb} (some blank) ino sup v nz first =
      let inode = init_vfs_inode k now blank dir mode ino in
      let s = put_inode (take_inode sb ino) ino (init_osfs_inode now' inode ino) in
      rw
        (
          lt→leb sb.inode_count ino (omega arith),
          osfs_get_osfs_inode_lem (take_inode sb ino) ino first.0 (omega arith),
        )
        (attach_NewInode blank ino inode (osfs_alloc_data_block s) v nz refl refl
          (init_vfs_inode-empty blank ino sup) first
          (subst (λ n. Allocates take_block sb.block_bitmap 0 n s (osfs_alloc_data_block s))
            v.block_count_eq (osfs_alloc_data_block-Allocates s)))

  place_NewInode :
      {sb : SbInfo} (fresh : Option Inode) (r : SbInfo × Result ℕ)
      → (k.s_isdir mode || k.s_isreg mode || k.s_islnk mode) ≡ true
      → IsValid k sb
      → sb.nr_free_blocks ≢ 0
      → Allocates take_inode sb.inode_bitmap 1 20 sb r
      → NewInode fresh sb (place_inode k fresh now now' dir mode r)
  place_NewInode {sb} fresh (s, err e) sup v nz a =
      unfold place_inode in
      refused enospc (inr refl) (s, err enospc) (ap (λ t. (t, err enospc)) a.1)
  place_NewInode {sb} fresh (s, ok ino) sup v nz a =
      subst (λ t. NewInode fresh sb (place_inode k fresh now now' dir mode (t, ok ino))) (sym a.0)
        (placed_NewInode fresh ino sup v nz a.1)

  -- In a valid region osfs_new_inode does one of three things. It gives the lowest free inode number
  -- and the lowest free block to a fresh entry of the table and returns its inode; or it fails with
  -- -EINVAL or -ENOSPC and changes nothing; or new_inode has failed, it returns -ENOMEM, and the
  -- inode number that it took stays taken.
  pub osfs_new_inode-NewInode :
      {sb : SbInfo} (fresh : Option Inode)
      → IsValid k sb
      → NewInode fresh sb (osfs_new_inode k fresh now now' sb dir mode)
  unfolding osfs_new_inode
  osfs_new_inode-NewInode {sb} fresh v =
      elim (Bool-cases (not (k.s_isdir mode || k.s_isreg mode || k.s_islnk mode))) [
        | inl e ↦ rw e (refused einval (inl refl) _ refl)
        | inr e ↦ rw e (elim (Bool-cases (sb.nr_free_inodes == 0 || sb.nr_free_blocks == 0)) [
          | inl z ↦ rw z (refused enospc (inr refl) _ refl)
          | inr nz ↦ rw nz (
              place_NewInode fresh (osfs_get_free_inode sb) (ground arith) v (ground arith) (
                subst (λ n. Allocates take_inode sb.inode_bitmap 1 n sb (osfs_get_free_inode sb))
                  v.inode_count_eq (osfs_get_free_inode-Allocates sb (omega arith))))
        ])
      ]

  pub NewInode-IsValid :
      {fresh : Option Inode} {sb : SbInfo} {out : SbInfo × Result Inode}
      → IsValid k sb
      → NewInode fresh sb out
      → IsValid k out.0
  unfolding init_osfs_inode
  NewInode-IsValid v (refused e c out q) = rw q v
  NewInode-IsValid v (leaked ino f first out q) = rw q (take_inode-IsValid v ino)
  NewInode-IsValid v (created blank ino b f first free inode ei z out q) = rw q (
      take_block-IsValid (data_blocks-IsValid (take_inode-IsValid v ino) _ _) ino b _ free.1 free.2
        refl (omega arith))

  -- osfs_new_inode keeps the invariant of the region on every branch.
  pub osfs_new_inode-IsValid :
      {sb : SbInfo} (fresh : Option Inode)
      → IsValid k sb
      → IsValid k (osfs_new_inode k fresh now now' sb dir mode).0
  osfs_new_inode-IsValid fresh v = NewInode-IsValid v (osfs_new_inode-NewInode fresh v)
