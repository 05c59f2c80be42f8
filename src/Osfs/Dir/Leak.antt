-- ===== src/Osfs/Dir/Leak.antt =====
-- What osfs_create leaves taken when it fails behind osfs_new_inode.
use mathlib.Core.Path.{subst}
use native.Mathlib.Decide.{dec_lt}
use fall_oslab.Base.{
  ℕ, ◌≤◌, suc, ◌≡◌, ◌≢◌, refl, ◌⊎◌, inl, inr, Option, true, false, List, arith, length, lt→ltb,
  le→ltb, sub32,
}
use fall_oslab.Kernel.{Kernel, Result, ok, err, einval, eexist, enospc, Errno, Inode, Timespec}
use fall_oslab.Osfs.Types.{SbInfo, OsfsInode}
use fall_oslab.Osfs.Inode.Alloc.{count_clear, count_clear-set}
use fall_oslab.Osfs.Inv.{IsValid}
use fall_oslab.Osfs.Dir.{
  init_osfs_inode, osfs_new_inode, osfs_add_dir_entry, finish_create, enter_inode, osfs_create,
}
use fall_oslab.Osfs.Dir.Names.{NulFree}
use fall_oslab.Osfs.Dir.Add.{Adds, osfs_add_dir_entry-Adds}
use fall_oslab.Osfs.Dir.NewInode.{
  NewInode, created, refused, leaked, with_inode, osfs_new_inode-NewInode,
}
use fall_oslab.Osfs.Dir.Create.{IsRooted, Keeps, Numbered, NewInode-Keeps, NewInode-Numbered}

-- An inode number and a block that were free are in use.
abbrev pub TakesBoth : SbInfo → SbInfo → Type 0
TakesBoth sb sb' =
    (ino b : ℕ) × (sb.inode_bitmap ino ≡ false)
    × (sb'.inode_bitmap ino ≡ true)
    × (sb.block_bitmap b ≡ false)
    × (sb'.block_bitmap b ≡ true)

with_inode-TakesBoth :
    (sb : SbInfo) (ino b : ℕ) (oi : OsfsInode)
    → sb.inode_bitmap ino ≡ false
    → sb.block_bitmap b ≡ false
    → TakesBoth sb (with_inode sb ino b oi)
with_inode-TakesBoth sb ino b oi hi hb = (ino, b, hi, ground arith, hb, ground arith)

finish_TakesBoth :
    (k : Kernel) (sb sb' : SbInfo) (p ino : ℕ) (name : List ℕ) (dir inode : Inode)
    (r : SbInfo × Result (Unit {0}))
    → TakesBoth sb sb'
    → Adds k sb' p ino name r
    → (finish_create true dir inode r).result ≡ err eexist
    → TakesBoth sb (finish_create true dir inode r).sb
unfolding finish_create
finish_TakesBoth k sb sb' p ino name dir inode (s, ok _) t a h = cc
finish_TakesBoth k sb sb' p ino name dir inode (s, err e) t a h = rw a.0 t

err-injective : {A : Type 0} {a b : Errno} → ◌≡◌ {A = Result A} (err a) (err b) → a ≡ b
err-injective h = cc

refused-ne-eexist : (e : Errno) → (e ≡ einval) ⊎ (e ≡ enospc) → e ≢ eexist
refused-ne-eexist e (inl a) h = cc
refused-ne-eexist e (inr a) h = cc

enter_TakesBoth :
    {k : Kernel} {sb : SbInfo} (now now' : Timespec) (dir : Inode) (mode : ℕ) (name : List ℕ)
    {fresh : Option Inode} {out : SbInfo × Result Inode}
    → NewInode k now now' dir mode fresh sb out
    → Keeps k dir.i_private sb out.0
    → Numbered out.1
    → NulFree name
    → length name ≤ 255
    → (enter_inode k true dir name out).result ≡ err eexist
    → TakesBoth sb (enter_inode k true dir name out).sb
unfolding enter_inode
enter_TakesBoth {k} {sb} now now' dir mode name (refused e c out q) keeps num nf short =
    rw q (λ h. absurd (refused-ne-eexist e c (err-injective h)))
enter_TakesBoth {k} {sb} now now' dir mode name (leaked ino f first out q) keeps num nf short =
    rw q (λ h. cc)
enter_TakesBoth {k} {sb} now now' dir mode name (created blank ino b ef first free inode ei z out q)
      keeps num nf short =
    let s = with_inode sb ino b (init_osfs_inode now' inode ino) in
    let kept = subst (λ (o : SbInfo × Result Inode). Keeps k dir.i_private sb o.0) q keeps in
    let numbered = subst (λ (o : SbInfo × Result Inode). Numbered o.1) q num in
    rw q (
      finish_TakesBoth k sb s dir.i_private inode.i_ino name dir _
        (osfs_add_dir_entry k s dir inode.i_ino name)
        (with_inode-TakesBoth sb ino b (init_osfs_inode now' inode ino) first.2 free.2)
        (osfs_add_dir_entry-Adds dir inode.i_ino name kept.rooted.valid kept.rooted.owns
          kept.rooted.dir nf short (omega arith)))

-- When osfs_create fails with -EEXIST, on a directory in use and for a name with no NUL, it has
-- taken an inode number and a block that were free, and leaves them taken: neither bit is cleared
-- again, although no entry names the inode.
pub osfs_create_leaks :
    {k : Kernel} {sb : SbInfo} (fresh : Option Inode) (now now' : Timespec) (dir : Inode)
    (name : List ℕ) (mode : ℕ)
    → IsRooted k sb dir.i_private
    → NulFree name
    → (osfs_create k fresh now now' true sb dir name mode).result ≡ err eexist
    → TakesBoth sb (osfs_create k fresh now now' true sb dir name mode).sb
unfolding osfs_create
osfs_create_leaks {k} {sb} fresh now now' dir name mode r nf = elim (dec_lt 255 (length name)) [
  | yes long ↦ rw (lt→ltb 255 (length name) long) (λ h. cc)
  | no short ↦
      let n = osfs_new_inode-NewInode k now now' dir mode fresh r.valid in
      rw (le→ltb 255 (length name) (omega arith)) (
        enter_TakesBoth now now' dir mode name n
          (NewInode-Keeps dir.i_private now now' dir mode r n)
          (NewInode-Numbered now now' dir mode n) nf (omega arith))
]

counters_lem :
    {k : Kernel} {sb : SbInfo} (now now' : Timespec) (dir : Inode) (mode : ℕ) {fresh : Option Inode}
    {out : SbInfo × Result Inode} (made : Inode)
    → NewInode k now now' dir mode fresh sb out
    → out.1 ≡ ok made
    → (out.0.nr_free_inodes ≡ sub32 (sub32 sb.nr_free_inodes 1) 1)
      × (suc (count_clear out.0.inode_bitmap 19 1) ≡ count_clear sb.inode_bitmap 19 1)
counters_lem now now' dir mode made (refused e c out q) = rw q (λ h. cc)
counters_lem now now' dir mode made (leaked ino f first out q) = rw q (λ h. cc)
counters_lem {sb = sb} now now' dir mode made (created blank ino b ef first free inode ei z out q) =
    rw q (λ h. (refl, count_clear-set sb.inode_bitmap 19 1 ino first.0 (omega arith) first.2))

-- A successful osfs_new_inode takes one inode number, so one number less of 1 to 19 is free, but it
-- lowers nr_free_inodes by two, modulo 2 ^ 32.
pub osfs_new_inode_counters :
    {k : Kernel} {sb : SbInfo} (fresh : Option Inode) (now now' : Timespec) (dir made : Inode)
    (mode : ℕ)
    → IsValid k sb
    → (osfs_new_inode k fresh now now' sb dir mode).1 ≡ ok made
    → let sb' = (osfs_new_inode k fresh now now' sb dir mode).0 in
      (sb'.nr_free_inodes ≡ sub32 (sub32 sb.nr_free_inodes 1) 1)
      × (suc (count_clear sb'.inode_bitmap 19 1) ≡ count_clear sb.inode_bitmap 19 1)
osfs_new_inode_counters {k} fresh now now' dir made mode v h =
    counters_lem now now' dir mode made (osfs_new_inode-NewInode k now now' dir mode fresh v) h
