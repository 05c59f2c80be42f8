-- ===== src/Osfs/Dir/Names.antt =====
-- The name comparison of Lab4/Lab4_Template_Done/dir.c: strlen and strncmp on an entry's bytes.
use native.Mathlib.Decide.{ℕ_discrete}
use fall_oslab.Base.{
  ℕ, zero, suc, ◌+◌, ◌≤◌, ◌<◌, ◌≡◌, ◌≢◌, refl, ap, sym, ◌∙◌, List, [], ◌∷◌, Bool, true, false, ◌&&◌,
  ◌==◌, arith, length, load_bytes, load_bytes-zero, load_bytes-suc,
}
use fall_oslab.Osfs.Types.{SbInfo}
use fall_oslab.Osfs.Dir.{strlen_from, strncmp_eq, strlen, entry_matches}

-- A name as the VFS passes it: no byte of it is 0.
abbrev pub NulFree : List ℕ → Type 0
NulFree [] = Unit {0}
NulFree (c ∷ cs) = (c ≢ 0) × NulFree cs

abbrev pub name_eq : List ℕ → List ℕ → Bool
name_eq [] [] = true
name_eq [] (d ∷ ds) = false
name_eq (c ∷ cs) [] = false
name_eq (c ∷ cs) (d ∷ ds) = c == d && name_eq cs ds

pub name_eq_refl : (cs : List ℕ) → name_eq cs cs ≡ true
name_eq_refl [] = refl
name_eq_refl (c ∷ cs) = ground (arith, name_eq_refl cs)

pub name_eq_sound : (cs ds : List ℕ) → name_eq cs ds ≡ true → cs ≡ ds
name_eq_sound [] [] h = refl
name_eq_sound [] (d ∷ ds) h = cc
name_eq_sound (c ∷ cs) [] h = cc
name_eq_sound (c ∷ cs) (d ∷ ds) h = ground (arith, name_eq_sound cs ds)

matches_lem :
    (m : ℕ → ℕ) (p s : ℕ) (name : List ℕ)
    → NulFree name
    → (s == length name && strncmp_eq m p name) ≡ name_eq (load_bytes m p s) name
unfolding strncmp_eq
matches_lem m p zero [] nf = rw load_bytes-zero
matches_lem m p zero (c ∷ cs) nf = rw load_bytes-zero (ground arith)
matches_lem m p (suc s) [] nf = rw load_bytes-suc (ground arith)
matches_lem m p (suc s) (c ∷ cs) nf =
    rw load_bytes-suc (ground (arith, matches_lem m (p + 1) s cs nf.1))

-- The test of an entry compares the whole name, the name stored there up to its NUL.
pub entry_matches_lem :
    (sb : SbInfo) (p : ℕ) (name : List ℕ)
    → NulFree name
    → entry_matches sb p name ≡ name_eq (load_bytes sb.data_blocks p (strlen sb p)) name
unfolding entry_matches
entry_matches_lem sb p name nf = matches_lem sb.data_blocks p (strlen sb p) name nf

-- strlen finds the terminator behind a name.
pub strlen_from_name :
    (f : ℕ) (m : ℕ → ℕ) (p : ℕ) (name : List ℕ)
    → NulFree name
    → load_bytes m p (length name) ≡ name
    → m (p + length name) ≡ 0
    → length name < f
    → strlen_from f m p ≡ length name
unfolding strlen_from
strlen_from_name zero m p name nf e z h = absurd (omega arith)
strlen_from_name (suc f) m p [] nf e z h = ground (arith, ap m {x = p + 0} {y = p} (omega arith))
strlen_from_name (suc f) m p (c ∷ cs) nf e z h =
    let e' : m p ∷ load_bytes m (p + 1) (length cs) ≡ c ∷ cs =
      sym (load_bytes-suc m p (length cs)) ∙ e in
    let hd : m p ≡ c = cc in
    let tl : load_bytes m (p + 1) (length cs) ≡ cs = cc in
    let z' : m (p + 1 + length cs) ≡ 0 = ap m (omega arith) ∙ z in
    ground (arith, strlen_from_name f m (p + 1) cs nf.1 tl z' (omega arith))

strlen_from_zero : (f : ℕ) (m : ℕ → ℕ) (p : ℕ) → m p ≡ 0 → strlen_from f m p ≡ 0
unfolding strlen_from
strlen_from_zero zero m p h = refl
strlen_from_zero (suc f) m p h = ground arith

strlen_from-suc :
    (f : ℕ) (m : ℕ → ℕ) (p : ℕ) → m p ≢ 0 → strlen_from (suc f) m p ≡ suc (strlen_from f m (p + 1))
unfolding strlen_from
strlen_from-suc f m p h = ground arith

-- strlen depends on the bytes up to the terminator alone.
pub strlen_from_agree :
    (f : ℕ) (m m' : ℕ → ℕ) (p s : ℕ)
    → strlen_from f m p ≡ s
    → s < f
    → ((q : ℕ) → p ≤ q → q ≤ p + s → m' q ≡ m q)
    → strlen_from f m' p ≡ s
strlen_from_agree zero m m' p s e h g = absurd (omega arith)
strlen_from_agree (suc f) m m' p zero e h g = elim (ℕ_discrete (m p) 0) [
  | yes z ↦ strlen_from_zero (suc f) m' p (g p (omega arith) (omega arith) ∙ z)
  | no nz ↦ absurd (omega (arith, strlen_from-suc f m p nz))
]
strlen_from_agree (suc f) m m' p (suc s) e h g = elim (ℕ_discrete (m p) 0) [
  | yes z ↦ absurd (omega (arith, strlen_from_zero (suc f) m p z))
  | no nz ↦
      strlen_from-suc f m' p (λ z. nz (sym (g p (omega arith) (omega arith)) ∙ z))
      ∙ ap suc (
          strlen_from_agree f m m' (p + 1) s (omega (arith, strlen_from-suc f m p nz)) (omega arith)
            (λ q a b. g q (omega arith) (omega arith)))
]
