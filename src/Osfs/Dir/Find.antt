-- ===== src/Osfs/Dir/Find.antt =====
-- osfs_lookup after osfs_create.
use mathlib.Core.Path.{subst}
use fall_oslab.Base.{
  ℕ, ◌≡◌, ◌≢◌, refl, ap, sym, ◌∙◌, inl, inr, Option, some, true, false, List, arith, Bool-cases,
}
use fall_oslab.Kernel.{Kernel, ok, Inode, Timespec}
use fall_oslab.Osfs.Types.{SbInfo}
use fall_oslab.Osfs.Inode.Alloc.{osfs_iget_lem, load_inode_fields}
use fall_oslab.Osfs.Inode.{load_inode}
use fall_oslab.Osfs.Dir.{osfs_lookup, osfs_create, splice, CreateOut}
use fall_oslab.Osfs.Dir.Names.{NulFree, name_eq, name_eq_refl, name_eq_sound}
use fall_oslab.Osfs.Dir.Entries.{
  entries, number_of, number_of-append, or_else-none, looked_up, osfs_lookup_lem,
}
use fall_oslab.Osfs.Dir.Create.{IsRooted, Outcome, Creates, osfs_create-Creates}

Outcome-ok :
    {k : Kernel} {sb : SbInfo} {p : ℕ} {dir : Inode} {name : List ℕ} (out : CreateOut)
    → Creates k sb p dir name out
    → out.result ≡ ok tt
    → Outcome k sb p dir name out (ok tt)
Outcome-ok {k} {sb} {p} {dir} {name} out c e = subst (Outcome k sb p dir name out) e c.outcome

name_ne : (cs ds : List ℕ) → cs ≢ ds → name_eq cs ds ≡ false
name_ne cs ds ne = elim (Bool-cases (name_eq cs ds)) [
  | inl e ↦ absurd (ne (name_eq_sound cs ds e))
  | inr e ↦ e
]

-- A name that osfs_create has entered is found by osfs_lookup: under the number that the dentry's
-- inode has, when new_inode succeeds for the lookup. Every other name keeps the number that it had,
-- or is still not in the directory.
pub osfs_lookup-osfs_create :
    {k : Kernel} {sb : SbInfo} (fresh : Option Inode) (now now' : Timespec) (dir : Inode)
    (name : List ℕ) (mode : ℕ) (blank : Inode)
    → IsRooted k sb dir.i_private
    → NulFree name
    → let out = osfs_create k fresh now now' true sb dir name mode in
      out.result ≡ ok tt
      → (made found : Inode) × (out.dentry ≡ some made)
        × (osfs_lookup k out.sb (some blank) out.dir name ≡ ok (some found))
        × (found.i_ino ≡ made.i_ino)
        × ((other : List ℕ)
            → other ≢ name
            → number_of other (entries k out.sb dir.i_private)
              ≡ number_of other (entries k sb dir.i_private))
osfs_lookup-osfs_create {k} {sb} fresh now now' dir name mode blank r nf done =
    let out = osfs_create k fresh now now' true sb dir name mode in
    let c = osfs_create-Creates fresh now now' dir name mode r nf in
    let o = Outcome-ok out c done in
    let made = o.0 in
    let p = dir.i_private in
    let got =
      osfs_iget_lem k out.sb blank made.i_ino o.2
        (omega (arith, o.3, c.rooted.valid.inode_count_eq)) in
    let hit : number_of name (entries k out.sb p) ≡ some made.i_ino =
      ap (number_of name) o.5
      ∙ number_of-append name name made.i_ino (entries k sb p)
      ∙ rw (o.4, name_eq_refl name) refl in
    (
      made,
      load_inode k out.sb blank made.i_ino made.i_ino,
      o.1,
      osfs_lookup_lem k out.sb (some blank) out.dir name nf
          ∙ ap
              (λ (d : Inode).
                looked_up k out.sb (some blank) (number_of name (entries k out.sb d.i_private)))
              o.6
          ∙ ap (looked_up k out.sb (some blank)) hit
          ∙ ap splice got,
      (load_inode_fields k out.sb blank made.i_ino).0,
      λ other ne.
          ap (number_of other) o.5
          ∙ number_of-append other name made.i_ino (entries k sb p)
          ∙ rw (name_ne name other (λ e. ne (sym e)))
              (or_else-none (number_of other (entries k sb p))),
    )
