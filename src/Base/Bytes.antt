-- ===== src/Base/Bytes.antt =====
-- Memory as a function from an offset to what stands there: bytes, bits, table entries.
use Prim.Native.Nat.{ℕ, zero, suc, ◌+◌, ◌-◌, min, ◌*◌, ◌/◌, ◌%◌, ◌^◌, ◌<◌, ◌≤◌}
use mathlib.Core.Path.{◌≡◌, refl, ap, ap₂, ◌∙◌, fun_ext}
use mathlib.Core.Logic.{◌⊎◌, inl, inr}
use mathlib.Core.List.{List, [], ◌∷◌, ◌++◌}
use native.Mathlib.Omega.{arith}
use fall_oslab.Base.Tests.{◌==◌, if◌then◌else◌}
use fall_oslab.Base.Lists.{length, get_or, take, drop}

-- `m[p] = v`
abbrev pub update {ℓ} : {A : Type ℓ} → (ℕ → A) → ℕ → A → ℕ → A
update m p v q = if q == p then v else m q

-- The second of two writes to one place counts.
pub update-update {ℓ} :
    {A : Type ℓ} (m : ℕ → A) (p : ℕ) (v w : A) → update (update m p v) p w ≡ update m p w
update-update m p v w = fun_ext λ q. ground arith

-- `memcpy(m + p, bytes, …)`
unfoldable pub store_bytes : (ℕ → ℕ) → ℕ → List ℕ → ℕ → ℕ
store_bytes m p [] = m
store_bytes m p (b ∷ bs) = store_bytes (update m p b) (p + 1) bs

-- the `n` bytes from `p` on
unfoldable pub load_bytes : (ℕ → ℕ) → ℕ → ℕ → List ℕ
load_bytes m p zero = []
load_bytes m p (suc n) = m p ∷ load_bytes m (p + 1) n

pub store_bytes-below : (bs : List ℕ) (m : ℕ → ℕ) (p q : ℕ) → q < p → store_bytes m p bs q ≡ m q
unfolding store_bytes
store_bytes-below [] m p q h = refl
store_bytes-below (b ∷ bs) m p q h = ground (arith, store_bytes-below bs (update m p b) (p + 1) q)

pub store_bytes-above :
    (bs : List ℕ) (m : ℕ → ℕ) (p q : ℕ) → p + length bs ≤ q → store_bytes m p bs q ≡ m q
unfolding store_bytes
store_bytes-above [] m p q h = refl
store_bytes-above (b ∷ bs) m p q h = ground (arith, store_bytes-above bs (update m p b) (p + 1) q)

pub store_bytes-within :
    (bs : List ℕ) (m : ℕ → ℕ) (p i : ℕ) → i < length bs → store_bytes m p bs (p + i) ≡ get_or bs i 0
unfolding store_bytes
store_bytes-within [] m p i h = absurd (omega arith)
store_bytes-within (b ∷ bs) m p zero h =
    ground (arith, store_bytes-below bs (update m p b) (p + 1) (p + 0))
store_bytes-within (b ∷ bs) m p (suc i) h =
    ap (store_bytes (update m p b) (p + 1) bs) (omega arith)
    ∙ store_bytes-within bs (update m p b) (p + 1) i (omega arith)

-- Memories that agree on a range read the same there.
pub load_bytes_agree :
    (m m' : ℕ → ℕ) (p n : ℕ)
    → ((q : ℕ) → p ≤ q → q < p + n → m q ≡ m' q)
    → load_bytes m p n ≡ load_bytes m' p n
unfolding load_bytes
load_bytes_agree m m' p zero h = refl
load_bytes_agree m m' p (suc n) h =
    ap₂ ◌∷◌ (h p (omega arith) (omega arith))
      (load_bytes_agree m m' (p + 1) n (λ q a b. h q (omega arith) (omega arith)))

-- What was stored is read back.
pub load_bytes-store_bytes :
    (bs : List ℕ) (m : ℕ → ℕ) (p : ℕ) → load_bytes (store_bytes m p bs) p (length bs) ≡ bs
unfolding load_bytes store_bytes
load_bytes-store_bytes [] m p = refl
load_bytes-store_bytes (b ∷ bs) m p =
    ap₂ ◌∷◌ (ground (arith, store_bytes-below bs (update m p b) (p + 1) p))
      (load_bytes-store_bytes bs (update m p b) (p + 1))

-- Bytes outside the stored range are kept.
pub load_bytes-store_bytes_apart :
    (bs : List ℕ) (m : ℕ → ℕ) (p q n : ℕ)
    → (q + n ≤ p) ⊎ (p + length bs ≤ q)
    → load_bytes (store_bytes m p bs) q n ≡ load_bytes m q n
load_bytes-store_bytes_apart bs m p q n (inl h) =
    load_bytes_agree _ m q n (λ r a b. store_bytes-below bs m p r (omega arith))
load_bytes-store_bytes_apart bs m p q n (inr h) =
    load_bytes_agree _ m q n (λ r a b. store_bytes-above bs m p r (omega arith))

pub length-load_bytes : (m : ℕ → ℕ) (p n : ℕ) → length (load_bytes m p n) ≡ n
unfolding load_bytes
length-load_bytes m p zero = refl
length-load_bytes m p (suc n) = ap suc (length-load_bytes m (p + 1) n)

-- A `uint32_t` in memory, low byte first.
abbrev u32_bytes : ℕ → List ℕ
u32_bytes v = (v % 256) ∷ (v / 256 % 256) ∷ (v / 65536 % 256) ∷ (v / 16777216 % 256) ∷ []

unfoldable pub store_u32 : (ℕ → ℕ) → ℕ → ℕ → ℕ → ℕ
unfolding store_bytes
store_u32 m p v = store_bytes m p (u32_bytes v)

unfoldable pub load_u32 : (ℕ → ℕ) → ℕ → ℕ
load_u32 m p = m p + 256 * m (p + 1) + 65536 * m (p + 2) + 16777216 * m (p + 3)

pub load_u32-store_u32 : (m : ℕ → ℕ) (p v : ℕ) → v < 2 ^ 32 → load_u32 (store_u32 m p v) p ≡ v
unfolding load_u32 store_u32
load_u32-store_u32 m p v h = ground arith

pub store_u32_apart : (m : ℕ → ℕ) (p q v : ℕ) → (q < p) ⊎ (p + 4 ≤ q) → store_u32 m p v q ≡ m q
unfolding store_u32
store_u32_apart m p q v h = ground arith

pub store_bytes_none : (m : ℕ → ℕ) (p q : ℕ) → store_bytes m p [] q ≡ m q
unfolding store_bytes
store_bytes_none m p q = refl

pub load_bytes-zero : (m : ℕ → ℕ) (p : ℕ) → load_bytes m p zero ≡ []
unfolding load_bytes
load_bytes-zero m p = refl

pub load_bytes-suc : (m : ℕ → ℕ) (p n : ℕ) → load_bytes m p (suc n) ≡ m p ∷ load_bytes m (p + 1) n
unfolding load_bytes
load_bytes-suc m p n = refl

pub load_bytes_none : (m : ℕ → ℕ) (p n : ℕ) → n ≡ 0 → load_bytes m p n ≡ []
unfolding load_bytes
load_bytes_none m p zero e = refl
load_bytes_none m p (suc n) e = absurd (omega arith)

pub load_bytes-add :
    (m : ℕ → ℕ) (p a n c : ℕ)
    → a + n ≡ c
    → load_bytes m p c ≡ load_bytes m p a ++ load_bytes m (p + a) n
unfolding load_bytes
load_bytes-add m p zero n c e = ap₂ (load_bytes m) (omega arith) (omega arith)
load_bytes-add m p (suc a) n zero e = absurd (omega arith)
load_bytes-add m p (suc a) n (suc c) e = ap (◌∷◌ (m p)) (
    load_bytes-add m (p + 1) a n c (omega arith)
    ∙ ap (λ q. load_bytes m (p + 1) a ++ load_bytes m q n) (omega arith))

pub take-load_bytes : (m : ℕ → ℕ) (p a n : ℕ) → take a (load_bytes m p n) ≡ load_bytes m p (min a n)
unfolding load_bytes
take-load_bytes m p zero n = ap (load_bytes m p) {x = 0} (omega arith)
take-load_bytes m p (suc a) zero = ap (load_bytes m p) {x = 0} (omega arith)
take-load_bytes m p (suc a) (suc n) =
    ap (◌∷◌ (m p)) (take-load_bytes m (p + 1) a n)
    ∙ ap (load_bytes m p) {x = suc (min a n)} (omega arith)

pub drop-load_bytes :
    (m : ℕ → ℕ) (p a n : ℕ) → drop a (load_bytes m p n) ≡ load_bytes m (p + a) (n - a)
unfolding load_bytes
drop-load_bytes m p zero n = ap₂ (load_bytes m) (omega arith) (omega arith)
drop-load_bytes m p (suc a) zero = ap (load_bytes m (p + suc a)) {x = 0} (omega arith)
drop-load_bytes m p (suc a) (suc n) =
    drop-load_bytes m (p + 1) a n ∙ ap₂ (load_bytes m) (omega arith) (omega arith)

pub load_u32_agree :
    (m m' : ℕ → ℕ) (p : ℕ)
    → ((q : ℕ) → p ≤ q → q < p + 4 → m' q ≡ m q)
    → load_u32 m' p ≡ load_u32 m p
unfolding load_u32
load_u32_agree m m' p h = omega (
  arith,
  h p (omega arith) (omega arith),
  h (p + 1) (omega arith) (omega arith),
  h (p + 2) (omega arith) (omega arith),
  h (p + 3) (omega arith) (omega arith),
)

pub store_bytes_nil : (m : ℕ → ℕ) (p : ℕ) → store_bytes m p [] ≡ m
unfolding store_bytes
store_bytes_nil m p = refl
