-- ===== src/Osfs/Dir/Entries.antt =====
-- The directory as a list of names and inode numbers, and osfs_lookup and osfs_iterate against it.
use mathlib.Core.Option
use native.Mathlib.Decide.{dec_le}
use mathlib.Core.Path.{ap₂, subst}
use fall_oslab.Base.{
  ℕ, zero, suc, ◌+◌, ◌-◌, ◌%◌, ◌^◌, ◌≤◌, ◌<◌, ◌≡◌, ◌⊎◌, sub64, refl, ap, ◌∙◌, inl, inr, List, [],
  ◌∷◌, ◌++◌, Option, none, some, Bool, true, false, ◌==◌, if◌then◌else◌, arith, Bool-cases, length,
  length-append, le→leb, lt→leb, drop, load_bytes,
}
use fall_oslab.Kernel.{Kernel, Result, ok, err, einval, Inode}
use fall_oslab.Osfs.Types.{SbInfo}
use fall_oslab.Osfs.Inode.{osfs_iget}
use fall_oslab.Osfs.Dir.{
  strlen, find_entry, dir_data_block, dir_entry_at, dir_entry_count, inode_no_at, splice,
  osfs_lookup, Emitted, entry_of, DirContext, iterate_entries, osfs_iterate,
}
use fall_oslab.Osfs.Dir.Names.{NulFree, name_eq, entry_matches_lem}

-- The entries i, i + 1, … of the block at `base`.
unfoldable pub entries_from : SbInfo → (base n i : ℕ) → List Emitted
entries_from sb base zero i = []
entries_from sb base (suc n) i = entry_of sb (dir_entry_at base i) ∷ entries_from sb base n (i + 1)

-- The directory whose entry in the inode table is `p`.
abbrev pub entries : Kernel → SbInfo → (p : ℕ) → List Emitted
entries k sb p =
    let oi = sb.inode_table p in entries_from sb (dir_data_block k oi) (dir_entry_count oi) 0

pub entries_none : (sb : SbInfo) (base : ℕ) → entries_from sb base zero 0 ≡ []
unfolding entries_from
entries_none sb base = refl

pub entries_from_agree :
    (sb sb' : SbInfo) (base n i : ℕ)
    → ((j : ℕ)
        → i ≤ j
        → j < i + n
        → entry_of sb' (dir_entry_at base j) ≡ entry_of sb (dir_entry_at base j))
    → entries_from sb' base n i ≡ entries_from sb base n i
unfolding entries_from
entries_from_agree sb sb' base zero i h = refl
entries_from_agree sb sb' base (suc n) i h =
    ap₂ ◌∷◌ (h i (omega arith) (omega arith))
      (entries_from_agree sb sb' base n (i + 1) (λ j a b. h j (omega arith) (omega arith)))

pub entries_from-suc :
    (sb : SbInfo) (base n i : ℕ)
    → entries_from sb base (suc n) i
      ≡ entries_from sb base n i ++ (entry_of sb (dir_entry_at base (i + n)) ∷ [])
unfolding entries_from
entries_from-suc sb base zero i = ap (λ t. entry_of sb (dir_entry_at base t) ∷ []) (omega arith)
entries_from-suc sb base (suc n) i = ap (◌∷◌ (entry_of sb (dir_entry_at base i))) (
    entries_from-suc sb base n (i + 1)
    ∙ ap (λ t. entries_from sb base n (i + 1) ++ (entry_of sb (dir_entry_at base t) ∷ []))
        (omega arith))

-- The specification of a lookup: the number of the first entry of that name.
unfoldable pub number_of : List ℕ → List Emitted → Option ℕ
number_of name [] = none
number_of name ((n, ino) ∷ es) =
    let rest = number_of name es in if name_eq n name then some ino else rest

abbrev pub or_else : Option ℕ → Option ℕ → Option ℕ
or_else none o = o
or_else (some i) o = some i

pub or_else-none : (o : Option ℕ) → or_else o none ≡ o
or_else-none none = refl
or_else-none (some i) = refl

-- An entry at the end counts if there is none before it.
pub number_of-append :
    (name n : List ℕ) (ino : ℕ) (es : List Emitted)
    → number_of name (es ++ ((n, ino) ∷ []))
      ≡ or_else (number_of name es) (if name_eq n name then some ino else none)
unfolding number_of
number_of-append name n ino [] = refl
number_of-append name n ino ((m, i) ∷ es) = elim (Bool-cases (name_eq m name)) [
  | inl e ↦ rw e refl
  | inr e ↦ rw e (number_of-append name n ino es)
]

pub find_entry-number_of :
    (sb : SbInfo) (base : ℕ) (name : List ℕ) (n i : ℕ)
    → NulFree name
    → Option.map (λ j. inode_no_at sb (dir_entry_at base j)) (find_entry sb base name n i)
      ≡ number_of name (entries_from sb base n i)
unfolding find_entry number_of entries_from entry_of
find_entry-number_of sb base name zero i nf = refl
find_entry-number_of sb base name (suc n) i nf =
    let p = dir_entry_at base i in
    elim (Bool-cases (name_eq (load_bytes sb.data_blocks p (strlen sb p)) name)) [
      | inl e ↦ rw (entry_matches_lem sb p name nf, e) refl
      | inr e ↦
          rw (entry_matches_lem sb p name nf, e) (find_entry-number_of sb base name n (i + 1) nf)
    ]

-- What osfs_lookup makes of the number that it finds.
abbrev pub looked_up : Kernel → SbInfo → (fresh : Option Inode) → Option ℕ → Result (Option Inode)
looked_up k sb fresh none = ok none
looked_up k sb fresh (some ino) = splice (osfs_iget k sb fresh ino)

lookup_map :
    (k : Kernel) (sb : SbInfo) (fresh : Option Inode) (base : ℕ) (r : Option ℕ)
    → (elim r [
      | none ↦ ok none
      | some i ↦ splice (osfs_iget k sb fresh (inode_no_at sb (dir_entry_at base i)))
    ])
      ≡ looked_up k sb fresh (Option.map (λ j. inode_no_at sb (dir_entry_at base j)) r)
lookup_map k sb fresh base none = refl
lookup_map k sb fresh base (some i) = refl

-- osfs_lookup answers as a search of the directory's list: it loads the inode of the first entry
-- whose name, read up to its NUL, is the one asked for (an error of osfs_iget is passed on), and
-- returns NULL if there is none. The name holds no NUL, as the VFS has it.
pub osfs_lookup_lem :
    (k : Kernel) (sb : SbInfo) (fresh : Option Inode) (dir : Inode) (name : List ℕ)
    → NulFree name
    → osfs_lookup k sb fresh dir name
      ≡ looked_up k sb fresh (number_of name (entries k sb dir.i_private))
unfolding osfs_lookup
osfs_lookup_lem k sb fresh dir name nf =
    let oi = sb.inode_table dir.i_private in
    let base = dir_data_block k oi in
    lookup_map k sb fresh base (find_entry sb base name (dir_entry_count oi) 0)
    ∙ ap (looked_up k sb fresh) (find_entry-number_of sb base name (dir_entry_count oi) 0 nf)

drop-entries_from :
    (sb : SbInfo) (base n i j : ℕ)
    → drop j (entries_from sb base n i) ≡ entries_from sb base (n - j) (i + j)
unfolding entries_from
drop-entries_from sb base n i zero = ap₂ (entries_from sb base) (omega arith) (omega arith)
drop-entries_from sb base zero i (suc j) =
    ap (λ t. entries_from sb base t (i + suc j)) {x = 0} (omega arith)
drop-entries_from sb base (suc n) i (suc j) =
    drop-entries_from sb base n (i + 1) j ∙ ap₂ (entries_from sb base) (omega arith) (omega arith)

-- The specification of an iteration: entries go to the actor until it refuses one. The list is what
-- the actor has afterwards, and the Boolean says whether it took them all.
unfoldable pub feed :
    (List Emitted → Emitted → Bool) → List Emitted → List Emitted → List Emitted × Bool
feed accept got [] = (got, true)
feed accept got (e ∷ es) =
    let rest = feed accept (got ++ (e ∷ [])) es in if accept got e then rest else (got, false)

abbrev pub all_taken : Bool → Result (Unit {0})
all_taken true = ok tt
all_taken false = err einval

-- What an iteration over `es` does to the context.
pub record Iterates (accept : List Emitted → Emitted → Bool) (es : List Emitted) (ctx : DirContext)
    (out : DirContext × Result (Unit {0})) : Type 0 where
  pub emitted : out.0.emitted ≡ (feed accept ctx.emitted es).0
  pub result : out.1 ≡ all_taken (feed accept ctx.emitted es).1
  pub pos : out.0.pos + length ctx.emitted ≡ ctx.pos + length out.0.emitted

iterate_entries-Iterates :
    (sb : SbInfo) (base : ℕ) (accept : List Emitted → Emitted → Bool) (n i : ℕ) (ctx : DirContext)
    → Iterates accept (entries_from sb base n i) ctx (iterate_entries sb base accept n i ctx)
unfolding iterate_entries entries_from feed
iterate_entries-Iterates sb base accept zero i ctx = record {
  emitted = refl;
  result = refl;
  pos = refl;
}
iterate_entries-Iterates sb base accept (suc n) i ctx =
    let e = entry_of sb (dir_entry_at base i) in
    let next : DirContext = record { pos = ctx.pos + 1; emitted = ctx.emitted ++ (e ∷ []) } in
    let ih = iterate_entries-Iterates sb base accept n (i + 1) next in
    record {
      emitted = ground (arith, ih.emitted);
      result = ground (arith, ih.result);
      pos = ground (arith, ih.pos, length-append ctx.emitted (e ∷ []));
    }

-- The int that osfs_iterate starts from, as its 32 bits.
abbrev pub start_index : (pos : ℕ) → ℕ
start_index pos = (pos - 2) % 2 ^ 32

-- osfs_iterate, from a position of 2 or more that fits a loff_t (2 is where dir_emit_dots leaves it).
-- It starts at the entry whose number is the low 32 bits of `pos - 2`: at `pos - 2` for a position
-- below 2^31 + 2, and at the beginning again at 2^32 + 2. From there it gives the actor the directory's
-- entries in order and until the actor refuses one, advances the position by the entries taken, and
-- returns 0 if all were taken and -EINVAL if not. Where bit 31 of `pos - 2` is set, the number is
-- negative, and the function reads in front of the directory, which is undefined.
pub osfs_iterate_lem :
    (k : Kernel) (dots : DirContext → DirContext × Bool) (accept : List Emitted → Emitted → Bool)
    (sb : SbInfo) (inode : Inode) (ctx ctx' : DirContext)
    → (if ctx.pos == 0 then dots ctx else (ctx, true)) ≡ (ctx', true)
    → 2 ≤ ctx'.pos
    → ctx'.pos < 2 ^ 63
    → let i = start_index ctx'.pos in
      let r = osfs_iterate k dots accept sb inode ctx in
      ((i < 2 ^ 31)
        × (out : DirContext × Result (Unit {0})) × (r ≡ some out)
        × Iterates accept (drop i (entries k sb inode.i_private)) ctx' out)
      ⊎ ((2 ^ 31 ≤ i) × (r ≡ none))
unfolding osfs_iterate
osfs_iterate_lem k dots accept sb inode ctx ctx' e h fits =
    let oi = sb.inode_table inode.i_private in
    let base = dir_data_block k oi in
    let i = start_index ctx'.pos in
    let n = dir_entry_count oi in
    let out = iterate_entries sb base accept (n - i) i ctx' in
    let same : sub64 ctx'.pos 2 % 2 ^ 32 ≡ i = omega (arith, h, fits) in
    elim (dec_le (2 ^ 31) i) [
      | yes le ↦ inr (le, rw (e, osfs_iterate, same, le→leb (2 ^ 31) i le) refl)
      | no gt ↦ inl (
        omega (arith, gt),
        out,
        rw (e, osfs_iterate, same, lt→leb (2 ^ 31) i (omega (arith, gt))) refl,
        rw (drop-entries_from sb base n 0 i) (
            subst (λ t. Iterates accept (entries_from sb base (n - i) t) ctx' out) (omega arith)
              (iterate_entries-Iterates sb base accept (n - i) i ctx')),
      )
    ]

-- At position 1, which a seek can set, osfs_iterate reads dir_entries[-1], whatever the directory
-- and the actor.
pub osfs_iterate_one :
    (k : Kernel) (dots : DirContext → DirContext × Bool) (accept : List Emitted → Emitted → Bool)
    (sb : SbInfo) (inode : Inode) (ctx : DirContext)
    → ctx.pos ≡ 1
    → osfs_iterate k dots accept sb inode ctx ≡ none
unfolding osfs_iterate
osfs_iterate_one k dots accept sb inode ctx h = rw (h, osfs_iterate) refl
