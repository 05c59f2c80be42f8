-- ===== src/Osfs/Dir/Add.antt =====
-- osfs_add_dir_entry against the directory's list.
use mathlib.Core.Path.{ap₂, subst}
use native.Mathlib.Decide.{dec_lt, dec_le}
use mathlib.Core.Option
use fall_oslab.Base.{
  ℕ, suc, ◌+◌, ◌-◌, ◌/◌, ◌%◌, ◌^◌, ◌≤◌, ◌<◌, ◌≡◌, ◌≢◌, refl, ap, sym, ◌∙◌, ◌⊎◌, inl, inr, List, [],
  ◌∷◌, ◌++◌, none, some, true, arith, Option-cases, length, add32, le→leb, lt→leb, eq→==,
  load_bytes, store_bytes, load_bytes_agree, store_bytes-below, store_bytes-above,
  load_bytes-store_bytes, load_u32, store_u32_apart, load_u32-store_u32, load_u32_agree,
}
use fall_oslab.Kernel.{Kernel, Result, ok, err, enospc, eexist, Inode}
use fall_oslab.Osfs.Types.{SbInfo, OsfsInode, put_inode, max_dir_entries}
use fall_oslab.Osfs.Inv.{
  IsValid, owns_block, mul32_lem, block_within, put_inode-IsValid, data_blocks-IsValid,
}
use fall_oslab.Osfs.Dir.{
  strlen, data_end, find_entry, dir_data_block, dir_entry_at, dir_entry_count, inode_no_at,
  entry_of, write_entry, osfs_add_dir_entry,
}
use fall_oslab.Osfs.Dir.Names.{NulFree, strlen_from_name, strlen_from_agree}
use fall_oslab.Osfs.Dir.Entries.{
  entries, entries_from, number_of, find_entry-number_of, entries_from_agree, entries_from-suc,
}

-- A directory's size counts whole entries, and each of them holds its name's terminator.
pub record IsDir (k : Kernel) (sb : SbInfo) (p : ℕ) : Type 0 where
  pub whole : (sb.inode_table p).i_size % 260 ≡ 0
  pub named :
      (i : ℕ)
      → i < dir_entry_count (sb.inode_table p)
      → strlen sb (dir_entry_at (dir_data_block k (sb.inode_table p)) i) ≤ 255

module _ (m : ℕ → ℕ) (p : ℕ) (name : List ℕ) (ino : ℕ) where
  write_entry_below : (r : ℕ) → r < p → write_entry m p name ino r ≡ m r
  unfolding write_entry
  write_entry_below r h =
      store_u32_apart _ (p + 256) r ino (inl (omega arith))
      ∙ ground (arith, store_bytes-below name m p r)

  module _ (short : length name ≤ 255) where
    write_entry_above : (r : ℕ) → p + 260 ≤ r → write_entry m p name ino r ≡ m r
    unfolding write_entry
    write_entry_above r h =
        store_u32_apart _ (p + 256) r ino (inr (omega arith))
        ∙ ground (arith, store_bytes-above name m p r)

    write_entry_name : load_bytes (write_entry m p name ino) p (length name) ≡ name
    unfolding write_entry
    write_entry_name =
        load_bytes_agree _ (store_bytes m p name) p (length name)
          (λ q a b. store_u32_apart _ (p + 256) q ino (inl (omega arith)) ∙ ground arith)
        ∙ load_bytes-store_bytes name m p

    write_entry_nul : write_entry m p name ino (p + length name) ≡ 0
    unfolding write_entry
    write_entry_nul =
        store_u32_apart _ (p + 256) (p + length name) ino (inl (omega arith)) ∙ ground arith

  write_entry_number : ino < 2 ^ 32 → load_u32 (write_entry m p name ino) (p + 256) ≡ ino
  unfolding write_entry
  write_entry_number h = load_u32-store_u32 _ (p + 256) ino h

-- Whether `p + 260` bytes are still in the data area, the region with other bytes and entries.
abbrev rewritten : SbInfo → (ℕ → ℕ) → (ℕ → OsfsInode) → SbInfo
rewritten sb m t = record sb { data_blocks = m; inode_table = t }

strlen_kept :
    (sb : SbInfo) (m : ℕ → ℕ) (t : ℕ → OsfsInode) (at : ℕ)
    → strlen sb at ≤ 255
    → at + 260 ≤ data_end sb
    → ((r : ℕ) → at ≤ r → r < at + 260 → m r ≡ sb.data_blocks r)
    → strlen (rewritten sb m t) at ≡ strlen sb at
strlen_kept sb m t at short within same =
    strlen_from_agree (data_end sb - at) sb.data_blocks m at (strlen sb at) refl (omega arith)
      (λ q a b. same q a (omega arith))

entry_kept :
    (sb : SbInfo) (m : ℕ → ℕ) (t : ℕ → OsfsInode) (at : ℕ)
    → strlen sb at ≤ 255
    → at + 260 ≤ data_end sb
    → ((r : ℕ) → at ≤ r → r < at + 260 → m r ≡ sb.data_blocks r)
    → entry_of (rewritten sb m t) at ≡ entry_of sb at
unfolding entry_of
entry_kept sb m t at short within same =
    ap₂ (λ a b. (a, b))
      (ap (load_bytes m at) (strlen_kept sb m t at short within same)
        ∙ load_bytes_agree m sb.data_blocks at (strlen sb at) (λ q a b. same q a (omega arith)))
      (load_u32_agree sb.data_blocks m (at + 256) (λ q a b. same q (omega arith) (omega arith)))

strlen_new :
    (sb : SbInfo) (t : ℕ → OsfsInode) (at : ℕ) (name : List ℕ) (ino : ℕ)
    → NulFree name
    → length name ≤ 255
    → at + 260 ≤ data_end sb
    → strlen (rewritten sb (write_entry sb.data_blocks at name ino) t) at ≡ length name
strlen_new sb t at name ino nf short within =
    strlen_from_name (data_end sb - at) _ at name nf
      (write_entry_name sb.data_blocks at name ino short)
      (write_entry_nul sb.data_blocks at name ino short) (omega arith)

entry_new :
    (sb : SbInfo) (t : ℕ → OsfsInode) (at : ℕ) (name : List ℕ) (ino : ℕ)
    → NulFree name
    → length name ≤ 255
    → ino < 2 ^ 32
    → at + 260 ≤ data_end sb
    → entry_of (rewritten sb (write_entry sb.data_blocks at name ino) t) at ≡ (name, ino)
unfolding entry_of
entry_new sb t at name ino nf short small within =
    ap₂ (λ a b. (a, b))
      (ap (load_bytes (write_entry sb.data_blocks at name ino) at)
          (strlen_new sb t at name ino nf short within)
        ∙ write_entry_name sb.data_blocks at name ino short)
      (write_entry_number sb.data_blocks at name ino small)

-- The region after osfs_add_dir_entry has added an entry to the directory `p`.
abbrev pub added : Kernel → SbInfo → (p ino : ℕ) → List ℕ → SbInfo
added k sb p ino name =
    let parent = sb.inode_table p in
    let at = dir_entry_at (dir_data_block k parent) (dir_entry_count parent) in
    put_inode (record sb { data_blocks = write_entry sb.data_blocks at name ino }) p
      (record parent { i_size = add32 parent.i_size 260 })

module _ {k : Kernel} {sb : SbInfo} {p : ℕ} (ino : ℕ) (name : List ℕ) (v : IsValid k sb)
    (own : owns_block sb p ≡ true) (d : IsDir k sb p) (nf : NulFree name)
    (short : length name ≤ 255)
    (room : dir_entry_count (sb.inode_table p) < k.block_size / 260) where
  -- The directory's entries and the one after them lie in the directory's block.
  entries_within :
      (i : ℕ)
      → i ≤ dir_entry_count (sb.inode_table p)
      → dir_entry_at (dir_data_block k (sb.inode_table p)) i + 260 ≤ data_end sb
  entries_within i h =
      let b = (sb.inode_table p).i_block in
      rw (v.block_count_eq, v.block_size_eq)
        (omega (
          arith,
          mul32_lem b k.block_size (v.owned p own).0 v.block_size_le,
          block_within b k.block_size (v.owned p own).0,
        ))

  -- The size still fits, and counts one entry more.
  size_fits : (sb.inode_table p).i_size + 260 ≤ k.block_size
  size_fits = omega (arith, d.whole)

  inode_table-added :
      (added k sb p ino name).inode_table p
      ≡ record (sb.inode_table p) { i_size = (sb.inode_table p).i_size + 260 }
  inode_table-added = rw (eq→== p p refl) (
      ap (λ t. record (sb.inode_table p) { i_size = t })
        (omega (arith, size_fits, v.block_size_le)))

  added-IsValid : IsValid k (added k sb p ino name)
  added-IsValid =
      put_inode-IsValid (data_blocks-IsValid v _ sb.nr_free_inodes) p _ refl refl
        (omega (arith, size_fits, v.block_size_le))

  -- The bytes of an entry before the new one.
  earlier_kept :
      (i : ℕ)
      → i < dir_entry_count (sb.inode_table p)
      → (r : ℕ) → dir_entry_at (dir_data_block k (sb.inode_table p)) i ≤ r
      → r < dir_entry_at (dir_data_block k (sb.inode_table p)) i + 260
      → (added k sb p ino name).data_blocks r ≡ sb.data_blocks r
  earlier_kept i h r lo up =
      let base = dir_data_block k (sb.inode_table p) in
      write_entry_below sb.data_blocks (dir_entry_at base (dir_entry_count (sb.inode_table p))) name
        ino r (omega arith)

  entries-added :
      ino < 2 ^ 32 → entries k (added k sb p ino name) p ≡ entries k sb p ++ ((name, ino) ∷ [])
  entries-added small =
      let s' = added k sb p ino name in
      let base = dir_data_block k (sb.inode_table p) in
      let n = dir_entry_count (sb.inode_table p) in
      ap (λ oi. entries_from s' (dir_data_block k oi) (dir_entry_count oi) 0) inode_table-added
      ∙ ap (λ t. entries_from s' base t 0) {y = suc n} (omega arith)
      ∙ entries_from-suc s' base n 0
      ∙ ap₂ (λ es e. es ++ (e ∷ []))
          (entries_from_agree sb s' base n 0 (λ j a b.
            entry_kept sb s'.data_blocks s'.inode_table (dir_entry_at base j)
              (d.named j (omega arith)) (entries_within j (omega arith))
              (earlier_kept j (omega arith))))
          (ap (λ t. entry_of s' (dir_entry_at base t)) {y = n} (omega arith)
            ∙ entry_new sb s'.inode_table (dir_entry_at base n) name ino nf short small
                (entries_within n (omega arith)))

  added-named :
      (i : ℕ)
      → i < suc (dir_entry_count (sb.inode_table p))
      → strlen (added k sb p ino name) (dir_entry_at (dir_data_block k (sb.inode_table p)) i) ≤ 255
  added-named i h =
      let s' = added k sb p ino name in
      let base = dir_data_block k (sb.inode_table p) in
      let n = dir_entry_count (sb.inode_table p) in
      elim (dec_lt i n) [
        | yes lt ↦ omega (
          arith,
          strlen_kept sb s'.data_blocks s'.inode_table (dir_entry_at base i) (d.named i lt)
              (entries_within i (omega arith)) (earlier_kept i lt),
          d.named i lt,
        )
        | no ge ↦
            let e : i ≡ n = omega arith in
            omega (
              arith,
              ap (λ t. strlen s' (dir_entry_at base t)) e,
              strlen_new sb s'.inode_table (dir_entry_at base n) name ino nf short
                  (entries_within n (omega arith)),
            )
      ]

  added-IsDir : IsDir k (added k sb p ino name) p
  added-IsDir =
      let s' = added k sb p ino name in
      record {
        whole =
            subst (λ (oi : OsfsInode). oi.i_size % 260 ≡ 0) (sym inode_table-added)
              (omega (arith, d.whole));
        named =
            subst
              (λ oi.
                (i : ℕ)
                → i < dir_entry_count oi
                → strlen s' (dir_entry_at (dir_data_block k oi) i) ≤ 255)
              (sym inode_table-added) (λ i h. added-named i (omega arith));
      }

none-ne-some {ℓ} : {A : Type ℓ} {a : A} → none ≡ some a → ⊥
none-ne-some h = cc

-- What osfs_add_dir_entry does to the directory `p`, seen as a list.
abbrev pub Adds : Kernel → SbInfo → (p ino : ℕ) → List ℕ → SbInfo × Result (Unit {0}) → Type 0
Adds k sb p ino name (sb', ok _) =
    (number_of name (entries k sb p) ≡ none)
    × (entries k sb' p ≡ entries k sb p ++ ((name, ino) ∷ []))
    × (sb' ≡ added k sb p ino name)
    × IsDir k sb' p
    × IsValid k sb'
Adds k sb p ino name (sb', err e) =
    (sb' ≡ sb)
    × (((e ≡ enospc) × (k.block_size / 260 ≤ dir_entry_count (sb.inode_table p)))
        ⊎ ((e ≡ eexist) × (number_of name (entries k sb p) ≢ none)))

-- osfs_add_dir_entry appends the name with its inode number to the directory's list, if there is
-- room in the directory's block and the name is not in the list; the region stays valid and the
-- directory well formed. If not, it changes nothing, and returns -ENOSPC (only if the block is full)
-- or -EEXIST (only if the name is there). The name holds no NUL and has at most 255 bytes.
pub osfs_add_dir_entry-Adds :
    {k : Kernel} {sb : SbInfo} (dir : Inode) (ino : ℕ) (name : List ℕ)
    → IsValid k sb
    → owns_block sb dir.i_private ≡ true
    → IsDir k sb dir.i_private
    → NulFree name
    → length name ≤ 255
    → ino < 2 ^ 32
    → Adds k sb dir.i_private ino name (osfs_add_dir_entry k sb dir ino name)
unfolding osfs_add_dir_entry
osfs_add_dir_entry-Adds {k} {sb} dir ino name v own d nf short small =
    let p = dir.i_private in
    let oi = sb.inode_table p in
    let base = dir_data_block k oi in
    let n = dir_entry_count oi in
    let at = λ (j : ℕ). inode_no_at sb (dir_entry_at base j) in
    let found = find_entry-number_of sb base name n 0 nf in
    elim (dec_le (max_dir_entries k) n) [
      | yes full ↦ rw (le→leb (max_dir_entries k) n full) (refl, inl (refl, full))
      | no room ↦
          let r : n < k.block_size / 260 = omega arith in
          rw (lt→leb (max_dir_entries k) n r) (elim (Option-cases (find_entry sb base name n 0)) [
            | inl e ↦ rw e (
              sym found ∙ ap (Option.map at) e,
              entries-added ino name v own d nf short r small,
              refl,
              added-IsDir ino name v own d nf short r,
              added-IsValid ino name v own d nf short r,
            )
            | inr (i, e) ↦
                let is : number_of name (entries k sb p) ≡ some (at i) =
                  sym found ∙ ap (Option.map at) e in
                rw e (refl, inr (refl, λ z. none-ne-some (sym z ∙ is)))
          ])
    ]
