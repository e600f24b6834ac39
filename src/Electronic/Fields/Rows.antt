-- ===== src/Electronic/Fields/Rows.antt =====
-- The integer algebra of matrices that fit a box: rows, their products and their scales.
use python_jdftx.Common.{ℕ, ◌+◌, ◌≡◌, sym, ap, ◌∙◌, arith}
use python_jdftx.Common.Int.{ℤ, pos, ◌+ℤ◌, ◌*ℤ◌}
use python_jdftx.Common.Parts.{
  own_parts, pos_parts, sum_parts, product_parts, equal_parts, IsDifference, *ℤ_assoc,
}
use python_jdftx.Core.Grid.{Vector3}
use python_jdftx.Electronic.Fields.{Matrix3, times_row, times_vector}
use python_jdftx.Electronic.Fields.Box.{row_times}
use python_jdftx.Electronic.Fields.Commensurate.{IsScaled}

-- A coordinate that is off by a multiple of its side, under an entry that fits.
pub shift_term :
    (n s : ℕ) (k m x a : ℤ)
    → k *ℤ pos s ≡ pos n *ℤ m
    → k *ℤ (x +ℤ pos s *ℤ a) ≡ k *ℤ x +ℤ pos n *ℤ (m *ℤ a)
shift_term n s k m x a h =
    equal_parts
      (product_parts (own_parts k)
        (sum_parts (own_parts x) (product_parts (pos_parts s) (own_parts a))))
      (sum_parts (product_parts (own_parts k) (own_parts x))
        (product_parts (product_parts (own_parts k) (pos_parts s)) (own_parts a)))
      (omega arith)
    ∙ ap (λ y. k *ℤ x +ℤ y *ℤ a) h
    ∙ ap (λ y. k *ℤ x +ℤ y) (*ℤ_assoc (pos n) m a)

gather :
    (n : ℕ) (p q r a b c : ℤ)
    → pos 0 +ℤ (p +ℤ pos n *ℤ a) +ℤ (q +ℤ pos n *ℤ b) +ℤ (r +ℤ pos n *ℤ c)
      ≡ (pos 0 +ℤ p +ℤ q +ℤ r) +ℤ pos n *ℤ (a +ℤ b +ℤ c)
gather n p q r a b c =
    equal_parts
      (sum_parts
        (sum_parts
          (sum_parts (pos_parts 0)
            (sum_parts (own_parts p) (product_parts (pos_parts n) (own_parts a))))
          (sum_parts (own_parts q) (product_parts (pos_parts n) (own_parts b))))
        (sum_parts (own_parts r) (product_parts (pos_parts n) (own_parts c))))
      (sum_parts
        (sum_parts (sum_parts (sum_parts (pos_parts 0) (own_parts p)) (own_parts q)) (own_parts r))
        (product_parts (pos_parts n)
          (sum_parts (sum_parts (own_parts a) (own_parts b)) (own_parts c))))
      (omega arith)

-- A row that fits takes no notice of multiples of the sides.
pub row_shift :
    (n : ℕ) (s : Vector3 ℕ) (m k x a : Vector3 ℤ)
    → IsScaled n s m k
    → times_row k
        (record { x = x.x +ℤ pos s.x *ℤ a.x; y = x.y +ℤ pos s.y *ℤ a.y; z = x.z +ℤ pos s.z *ℤ a.z })
      ≡ times_row k x +ℤ pos n *ℤ (m.x *ℤ a.x +ℤ m.y *ℤ a.y +ℤ m.z *ℤ a.z)
unfolding times_row
row_shift n s m k x a h =
    let tx = shift_term n s.x k.x m.x x.x a.x h.x in
    let ty = shift_term n s.y k.y m.y x.y a.y h.y in
    let tz = shift_term n s.z k.z m.z x.z a.z h.z in
    ap (λ t. pos 0 +ℤ t +ℤ k.y *ℤ (x.y +ℤ pos s.y *ℤ a.y) +ℤ k.z *ℤ (x.z +ℤ pos s.z *ℤ a.z)) tx
    ∙ ap
        (λ t. pos 0 +ℤ (k.x *ℤ x.x +ℤ pos n *ℤ (m.x *ℤ a.x)) +ℤ t +ℤ k.z *ℤ (x.z +ℤ pos s.z *ℤ a.z))
        ty
    ∙ ap
        (λ t.
          pos 0
          +ℤ (k.x *ℤ x.x +ℤ pos n *ℤ (m.x *ℤ a.x))
          +ℤ (k.y *ℤ x.y +ℤ pos n *ℤ (m.y *ℤ a.y))
          +ℤ t)
        tz
    ∙ gather n (k.x *ℤ x.x) (k.y *ℤ x.y) (k.z *ℤ x.z) (m.x *ℤ a.x) (m.y *ℤ a.y) (m.z *ℤ a.z)

unfoldable pub sum3 : (a b c : ℤ) → ℤ
sum3 a b c = pos 0 +ℤ a +ℤ b +ℤ c

sum3_parts :
    {a b c : ℤ} {p n q m u w : ℕ}
    → IsDifference a p n
    → IsDifference b q m
    → IsDifference c u w
    → IsDifference (sum3 a b c) (0 + p + q + u) (0 + n + m + w)
unfolding sum3
sum3_parts x y z = sum_parts (sum_parts (sum_parts (pos_parts 0) x) y) z

spread :
    (k a b c x y z : ℤ)
    → k *ℤ sum3 (a *ℤ x) (b *ℤ y) (c *ℤ z) ≡ sum3 ((k *ℤ a) *ℤ x) ((k *ℤ b) *ℤ y) ((k *ℤ c) *ℤ z)
spread k a b c x y z =
    equal_parts
      (product_parts (own_parts k) (
        sum3_parts (product_parts (own_parts a) (own_parts x))
          (product_parts (own_parts b) (own_parts y)) (product_parts (own_parts c) (own_parts z))))
      (sum3_parts (product_parts (product_parts (own_parts k) (own_parts a)) (own_parts x))
        (product_parts (product_parts (own_parts k) (own_parts b)) (own_parts y))
        (product_parts (product_parts (own_parts k) (own_parts c)) (own_parts z)))
      (omega arith)

common_right : (a b c x : ℤ) → sum3 (a *ℤ x) (b *ℤ x) (c *ℤ x) ≡ sum3 a b c *ℤ x
common_right a b c x =
    equal_parts
      (sum3_parts (product_parts (own_parts a) (own_parts x))
        (product_parts (own_parts b) (own_parts x)) (product_parts (own_parts c) (own_parts x)))
      (product_parts (sum3_parts (own_parts a) (own_parts b) (own_parts c)) (own_parts x))
      (omega arith)

factor : (n : ℕ) (a b c : ℤ) → sum3 (pos n *ℤ a) (pos n *ℤ b) (pos n *ℤ c) ≡ pos n *ℤ sum3 a b c
factor n a b c =
    equal_parts
      (sum3_parts (product_parts (pos_parts n) (own_parts a))
        (product_parts (pos_parts n) (own_parts b)) (product_parts (pos_parts n) (own_parts c)))
      (product_parts (pos_parts n) (sum3_parts (own_parts a) (own_parts b) (own_parts c)))
      (omega arith)

columns :
    (p q r a b c x y z : ℤ)
    → sum3 (sum3 p q r) (sum3 a b c) (sum3 x y z) ≡ sum3 (sum3 p a x) (sum3 q b y) (sum3 r c z)
columns p q r a b c x y z =
    equal_parts
      (sum3_parts (sum3_parts (own_parts p) (own_parts q) (own_parts r))
        (sum3_parts (own_parts a) (own_parts b) (own_parts c))
        (sum3_parts (own_parts x) (own_parts y) (own_parts z)))
      (sum3_parts (sum3_parts (own_parts p) (own_parts a) (own_parts x))
        (sum3_parts (own_parts q) (own_parts b) (own_parts y))
        (sum3_parts (own_parts r) (own_parts c) (own_parts z)))
      (omega arith)

pub sum3_cong : {a b c x y z : ℤ} → a ≡ x → b ≡ y → c ≡ z → sum3 a b c ≡ sum3 x y z
sum3_cong e f g = cc

-- A row times a vector that is a product: the row of the product of the matrices.
pub row_product :
    (k : Vector3 ℤ) (t : Matrix3 ℤ) (r : Vector3 ℤ)
    → times_row k (times_vector t r) ≡ times_row (row_times k t) r
unfolding times_row times_vector row_times sum3
row_product k t r =
    sum3_cong (spread k.x t.row0.x t.row0.y t.row0.z r.x r.y r.z)
      (spread k.y t.row1.x t.row1.y t.row1.z r.x r.y r.z)
      (spread k.z t.row2.x t.row2.y t.row2.z r.x r.y r.z)
    ∙ columns (k.x *ℤ t.row0.x *ℤ r.x) (k.x *ℤ t.row0.y *ℤ r.y) (k.x *ℤ t.row0.z *ℤ r.z)
        (k.y *ℤ t.row1.x *ℤ r.x) (k.y *ℤ t.row1.y *ℤ r.y) (k.y *ℤ t.row1.z *ℤ r.z)
        (k.z *ℤ t.row2.x *ℤ r.x) (k.z *ℤ t.row2.y *ℤ r.y) (k.z *ℤ t.row2.z *ℤ r.z)
    ∙ sum3_cong (common_right (k.x *ℤ t.row0.x) (k.y *ℤ t.row1.x) (k.z *ℤ t.row2.x) r.x)
        (common_right (k.x *ℤ t.row0.y) (k.y *ℤ t.row1.y) (k.z *ℤ t.row2.y) r.y)
        (common_right (k.x *ℤ t.row0.z) (k.y *ℤ t.row1.z) (k.z *ℤ t.row2.z) r.z)

-- The scales of two factors come together in the scale of their product.
scaled_term :
    (n s w : ℕ) (q k t m : ℤ)
    → q *ℤ pos s ≡ pos n *ℤ k
    → t *ℤ pos w ≡ pos s *ℤ m
    → (q *ℤ t) *ℤ pos w ≡ pos n *ℤ (k *ℤ m)
scaled_term n s w q k t m h g =
    *ℤ_assoc q t (pos w)
    ∙ ap (λ x. q *ℤ x) g
    ∙ sym (*ℤ_assoc q (pos s) m)
    ∙ ap (λ x. x *ℤ m) h
    ∙ *ℤ_assoc (pos n) k m

pub scaled_entry :
    (n w : ℕ) (s : Vector3 ℕ) (k q : Vector3 ℤ) (m0 m1 m2 t0 t1 t2 : ℤ)
    → IsScaled n s k q
    → t0 *ℤ pos w ≡ pos s.x *ℤ m0
    → t1 *ℤ pos w ≡ pos s.y *ℤ m1
    → t2 *ℤ pos w ≡ pos s.z *ℤ m2
    → sum3 (q.x *ℤ t0) (q.y *ℤ t1) (q.z *ℤ t2) *ℤ pos w
      ≡ pos n *ℤ sum3 (k.x *ℤ m0) (k.y *ℤ m1) (k.z *ℤ m2)
scaled_entry n w s k q m0 m1 m2 t0 t1 t2 h g0 g1 g2 =
    sym (common_right (q.x *ℤ t0) (q.y *ℤ t1) (q.z *ℤ t2) (pos w))
    ∙ sum3_cong (scaled_term n s.x w q.x k.x t0 m0 h.x g0)
        (scaled_term n s.y w q.y k.y t1 m1 h.y g1) (scaled_term n s.z w q.z k.z t2 m2 h.z g2)
    ∙ factor n (k.x *ℤ m0) (k.y *ℤ m1) (k.z *ℤ m2)
