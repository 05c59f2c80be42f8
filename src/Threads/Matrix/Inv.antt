-- ===== src/Threads/Matrix/Inv.antt =====
-- Two threads that add to the elements of one matrix: what they have added between them.
use fall_oslab.Base.{ℕ, ◌+◌, ◌%◌, ◌^◌, ◌≤◌, ◌<◌, ◌≡◌, ap, ◌∙◌, arith, add32}
use fall_oslab.Threads.Matrix.{Matrix, Bounds, LoopPc, for_i}
use fall_oslab.Threads.Matrix.Loop.{part, Fits, Loaded, Moves, part-start}

-- What thread t with its bounds b has done, next to another thread u with bounds d.
pub record Inv (x y z0 : Matrix) (b d : Bounds) (t u : LoopPc) (z : Matrix) : Type 0 where
  pub fits : Fits b t
  pub loaded : Loaded t z
  pub fits2 : Fits d u
  pub loaded2 : Loaded u z
  pub total :
      (p q : ℕ)
      → q < b.matrix_col_y
      → z p q ≡ (z0 p q + part d x y u p q + part b x y t p q) % 2 ^ 32

start_element : {c m n : ℕ} → c < 2 ^ 32 → m ≡ 0 → n ≡ 0 → c ≡ (c + m + n) % 2 ^ 32
start_element h e f = omega arith

pub Inv-start :
    (x y z0 : Matrix) (b d : Bounds)
    → ((p q : ℕ) → z0 p q < 2 ^ 32)
    → (b.row_from ≤ b.row_to) × (b.inner_from ≤ b.inner_to)
    → (d.row_from ≤ d.row_to) × (d.inner_from ≤ d.inner_to)
    → Inv x y z0 b d (for_i b.row_from) (for_i d.row_from) z0
Inv-start x y z0 b d h f g = record {
  fits = (omega arith, f.0, f.1);
  loaded = tt;
  fits2 = (omega arith, g.0, g.1);
  loaded2 = tt;
  total = λ p q k. start_element (h p q) (part-start d x y p q) (part-start b x y p q);
}

pub Inv-swap :
    (x y z0 : Matrix) (b d : Bounds) (t u : LoopPc) (z : Matrix)
    → b.matrix_col_y ≡ d.matrix_col_y
    → Inv x y z0 b d t u z
    → Inv x y z0 d b u t z
Inv-swap x y z0 b d t u z e v = record {
  fits = v.fits2;
  loaded = v.loaded2;
  fits2 = v.fits;
  loaded2 = v.loaded;
  total = λ p q h. v.total p q (omega arith) ∙ ap (λ n. n % 2 ^ 32) (omega arith);
}

pub Moves-Inv :
    (x y z0 : Matrix) (b d : Bounds) (t u : LoopPc) (z : Matrix) (t' : LoopPc) (z' : Matrix)
    → Moves b x y t z t' z'
    → Inv x y z0 b d t u z
    → Loaded u z'
    → Inv x y z0 b d t' u z'
Moves-Inv x y z0 b d t u z t' z' g v l = record {
  fits = g.fits;
  loaded = g.loaded;
  fits2 = v.fits2;
  loaded2 = l;
  total = λ p q h. g.adds p q (z0 p q + part d x y u p q) h (v.total p q h);
}

pub ended_element :
    (c : ℕ) {value m n m' n' d : ℕ}
    → value ≡ (c + n + m) % 2 ^ 32
    → m ≡ m'
    → n ≡ n'
    → n' + m' ≡ d
    → value ≡ add32 c (d % 2 ^ 32)
ended_element c e f g h = omega arith
