-- ===== src/Osfs/Dir/Create.antt =====
-- osfs_create: the directory's list after it, and what a later osfs_lookup finds.
use mathlib.Core.Path.{ap₂, subst}
use native.Mathlib.Decide.{dec_lt}
use fall_oslab.Base.{
  ℕ, ◌+◌, ◌-◌, ◌*◌, ◌%◌, ◌≤◌, ◌<◌, ◌≡◌, refl, ap, sym, ◌∙◌, Option, none, some, true, not, ◌||◌,
  ◌==◌, arith, eq→==, le→ltb, lt→ltb, List, [], ◌∷◌, ◌++◌, length, load_bytes, load_u32,
}
use fall_oslab.Kernel.{Kernel, Result, ok, err, Inode, Timespec}
use fall_oslab.Osfs.Types.{SbInfo, OsfsInode}
use fall_oslab.Osfs.Inv.{IsValid, owns_block}
use fall_oslab.Osfs.Dir.{
  init_vfs_inode, data_end, entry_of, strlen_from, dir_entry_count, strlen, dir_entry_at,
  dir_data_block, osfs_new_inode, osfs_add_dir_entry, CreateOut, finish_create, enter_inode,
  osfs_create,
}
use fall_oslab.Osfs.Dir.Names.{NulFree}
use fall_oslab.Osfs.Dir.Entries.{entries, entries_from, entries_from_agree, number_of}
use fall_oslab.Osfs.Dir.Add.{IsDir, Adds, osfs_add_dir_entry-Adds}
use fall_oslab.Osfs.Dir.NewInode.{
  NewInode, created, refused, leaked, osfs_new_inode-NewInode, NewInode-IsValid,
}

-- The directory `p` is in use: its number is taken, it has a block, and its entries are well formed.
pub record IsRooted (k : Kernel) (sb : SbInfo) (p : ℕ) : Type 0 where
  pub valid : IsValid k sb
  pub taken : sb.inode_bitmap p ≡ true
  pub owns : owns_block sb p ≡ true
  pub dir : IsDir k sb p

-- What a successful or a failed osfs_create in the directory `p` leaves.
abbrev pub Outcome :
    Kernel → SbInfo → (p : ℕ) → Inode → List ℕ → CreateOut → Result (Unit {0}) → Type 0
Outcome k sb p dir name out (ok _) =
    (inode : Inode) × (out.dentry ≡ some inode)
    × (1 ≤ inode.i_ino)
    × (inode.i_ino < 20)
    × (number_of name (entries k sb p) ≡ none)
    × (entries k out.sb p ≡ entries k sb p ++ ((name, inode.i_ino) ∷ []))
    × (out.dir ≡ record dir { i_size = dir.i_size + 260 })
Outcome k sb p dir name out (err e) =
    (out.dentry ≡ none) × (entries k out.sb p ≡ entries k sb p) × (out.dir ≡ dir)

pub record Creates (k : Kernel) (sb : SbInfo) (p : ℕ) (dir : Inode) (name : List ℕ)
    (out : CreateOut) : Type 0 where
  pub rooted : IsRooted k out.sb p
  pub outcome : Outcome k sb p dir name out out.result

-- The region after osfs_new_inode, as seen from the directory.
pub record Keeps (k : Kernel) (p : ℕ) (sb sb' : SbInfo) : Type 0 where
  pub rooted : IsRooted k sb' p
  pub entries_eq : entries k sb' p ≡ entries k sb p

-- A change that leaves the directory's entry, number and bytes alone.
unchanged-Keeps :
    {k : Kernel} {sb sb' : SbInfo} (p : ℕ)
    → IsRooted k sb p
    → IsValid k sb'
    → sb'.inode_bitmap p ≡ true
    → sb'.inode_table p ≡ sb.inode_table p
    → sb'.data_blocks ≡ sb.data_blocks
    → Keeps k p sb sb'
unfolding entry_of
unchanged-Keeps {k} {sb} {sb'} p r v taken entry bytes =
    let ends : data_end sb' ≡ data_end sb =
      ap₂ ◌*◌ (v.block_count_eq ∙ sym r.valid.block_count_eq)
        (v.block_size_eq ∙ sym r.valid.block_size_eq) in
    let len : (at : ℕ) → strlen sb' at ≡ strlen sb at =
      λ at. ap₂ (λ e m. strlen_from (e - at) m at) ends bytes in
    record {
      rooted = record {
        valid = v;
        taken = taken;
        owns = ap (λ (oi : OsfsInode). p == 1 || not (oi.i_blocks == 0)) entry ∙ r.owns;
        dir = record {
          whole = ap (λ (oi : OsfsInode). oi.i_size % 260) entry ∙ r.dir.whole;
          named =
              subst
                (λ oi.
                  (i : ℕ)
                  → i < dir_entry_count oi
                  → strlen sb' (dir_entry_at (dir_data_block k oi) i) ≤ 255)
                (sym entry)
                (λ i h. omega (
                  arith,
                  len (dir_entry_at (dir_data_block k (sb.inode_table p)) i),
                  r.dir.named i h,
                ));
        };
      };
      entries_eq =
          ap (λ oi. entries_from sb' (dir_data_block k oi) (dir_entry_count oi) 0) entry
          ∙ entries_from_agree sb sb' (dir_data_block k (sb.inode_table p))
              (dir_entry_count (sb.inode_table p)) 0
              (λ j a b.
                let at = dir_entry_at (dir_data_block k (sb.inode_table p)) j in
                ap₂ (λ n m. (load_bytes m at n, load_u32 m (at + 256))) (len at) bytes);
    }

pub NewInode-Keeps :
    {k : Kernel} {sb : SbInfo} (p : ℕ) (now now' : Timespec) (dir : Inode) (mode : ℕ)
    {fresh : Option Inode} {out : SbInfo × Result Inode}
    → IsRooted k sb p
    → NewInode k now now' dir mode fresh sb out
    → Keeps k p sb out.0
NewInode-Keeps {k} {sb} p now now' dir mode r n =
    go n (NewInode-IsValid k now now' dir mode r.valid n)
  where
    go :
        {fresh : Option Inode} {out : SbInfo × Result Inode}
        → NewInode k now now' dir mode fresh sb out
        → IsValid k out.0
        → Keeps k p sb out.0
    go (refused e c out q) v = rw q (record { rooted = r; entries_eq = refl })
    go (leaked ino f first out q) v =
        unchanged-Keeps p r v (rw q (ground (arith, r.taken))) (rw q) (rw q)
    go (created blank ino b ef first free inode ei z out q) v =
        unchanged-Keeps p r v (rw q (ground (arith, r.taken)))
          (rw q (ground (arith, r.taken, first.2))) (rw q)

-- The numbers that osfs_new_inode hands out.
abbrev pub Numbered : Result Inode → Type 0
Numbered (ok inode) = (1 ≤ inode.i_ino) × (inode.i_ino < 20)
Numbered (err e) = Unit {0}

init_vfs_inode-number :
    (k : Kernel) (now : Timespec) (blank dir : Inode) (mode ino : ℕ)
    → (init_vfs_inode k now blank dir mode ino).i_ino ≡ ino
unfolding init_vfs_inode
init_vfs_inode-number k now blank dir mode ino = ground arith

pub NewInode-Numbered :
    {k : Kernel} {sb : SbInfo} (now now' : Timespec) (dir : Inode) (mode : ℕ) {fresh : Option Inode}
    {out : SbInfo × Result Inode}
    → NewInode k now now' dir mode fresh sb out
    → Numbered out.1
NewInode-Numbered now now' dir mode (refused e c out q) = rw q tt
NewInode-Numbered now now' dir mode (leaked ino f first out q) = rw q tt
NewInode-Numbered {k} now now' dir mode (created blank ino b ef first free inode ei z out q) =
    let number : inode.i_ino ≡ ino =
      ap (λ (i : Inode). i.i_ino) ei ∙ init_vfs_inode-number k now blank dir mode ino in
    rw q (omega arith, omega arith)

finish_Creates :
    {k : Kernel} {sb sb' : SbInfo} {p : ℕ} (dir inode : Inode) (name : List ℕ)
    (r : SbInfo × Result (Unit {0}))
    → Keeps k p sb sb'
    → Numbered (ok inode)
    → Adds k sb' p inode.i_ino name r
    → Creates k sb p dir name (finish_create true dir inode r)
unfolding finish_create
finish_Creates {k} {sb} {sb'} {p} dir inode name (s, ok _) keeps num a = record {
  rooted = record {
    valid = a.4;
    taken = rw a.2 keeps.rooted.taken;
    owns = rw (a.2, eq→== p p refl) keeps.rooted.owns;
    dir = a.3;
  };
  outcome = (
    inode,
    refl,
    num.0,
    num.1,
    ap (number_of name) (sym keeps.entries_eq) ∙ a.0,
    a.1 ∙ ap (λ es. es ++ ((name, inode.i_ino) ∷ [])) keeps.entries_eq,
    refl,
  );
}
finish_Creates {k} dir inode name (s, err e) keeps num a = record {
  rooted = rw a.0 keeps.rooted;
  outcome = (refl, rw a.0 keeps.entries_eq, refl);
}

enter_Creates :
    {k : Kernel} {sb : SbInfo} (dir : Inode) (name : List ℕ) (out : SbInfo × Result Inode)
    → Keeps k dir.i_private sb out.0
    → Numbered out.1
    → NulFree name
    → length name ≤ 255
    → Creates k sb dir.i_private dir name (enter_inode k true dir name out)
unfolding enter_inode
enter_Creates dir name (s, err e) keeps num nf short = record {
  rooted = keeps.rooted;
  outcome = (refl, keeps.entries_eq, refl);
}
enter_Creates {k} dir name (s, ok inode) keeps num nf short =
    finish_Creates dir inode name (osfs_add_dir_entry k s dir inode.i_ino name) keeps num (
      osfs_add_dir_entry-Adds dir inode.i_ino name keeps.rooted.valid keeps.rooted.owns
        keeps.rooted.dir nf short (omega arith))

-- osfs_create on a directory in use, for a name of any length with no NUL, when d_instantiate binds
-- the dentry. If it succeeds, the directory's list has grown by the name with the new inode's
-- number, which lies between 1 and 19, the name was not in the list before, and the dentry has the
-- inode. If it fails, the list and the directory's inode are as they were and the dentry has none. In
-- both cases the region stays valid and the directory well formed.
pub osfs_create-Creates :
    {k : Kernel} {sb : SbInfo} (fresh : Option Inode) (now now' : Timespec) (dir : Inode)
    (name : List ℕ) (mode : ℕ)
    → IsRooted k sb dir.i_private
    → NulFree name
    → Creates k sb dir.i_private dir name (osfs_create k fresh now now' true sb dir name mode)
unfolding osfs_create
osfs_create-Creates {k} {sb} fresh now now' dir name mode r nf = elim (dec_lt 255 (length name)) [
  | yes long ↦
      rw (lt→ltb 255 (length name) long) (record { rooted = r; outcome = (refl, refl, refl) })
  | no short ↦
      let n = osfs_new_inode-NewInode k now now' dir mode fresh r.valid in
      rw (le→ltb 255 (length name) (omega arith)) (
        enter_Creates dir name (osfs_new_inode k fresh now now' sb dir mode)
          (NewInode-Keeps dir.i_private now now' dir mode r n)
          (NewInode-Numbered now now' dir mode n) nf (omega arith))
]
