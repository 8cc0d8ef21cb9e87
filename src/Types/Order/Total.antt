-- ===== src/Types/Order/Total.antt =====
-- The order of `Datum` compares the variant and then the payload, and is total.
use heliondb.Base.{
  ℕ, String, Bool, true, false, compare, Ordering, List, [], ◌∷◌, map, ◌≡◌, refl, arith,
  if◌then◌else◌, ap, ◌∙◌, sym,
}
use heliondb.Base.Int.{ℤ, pos, negsuc}
use heliondb.Base.Text.{codes, codes-injective}
use heliondb.Base.Compare.{
  IsTotalOrder, cmp_ℤ, cmp_list, then_with, cmp_ℤ-IsTotalOrder, cmp_list-IsTotalOrder,
  compare-IsTotalOrder,
}
use heliondb.Types.Datum.{Datum, Float}
use heliondb.Types.Order.{variant_idx, cmp_bool, total_cmp, cmp_str, cmp}

-- The payload of a value as integers, which the order compares one after the other.
float_key : Float → ℤ
float_key f = if f.sign then negsuc f.magnitude else pos f.magnitude

payload : Datum → List ℤ
unfolding float_key
payload (Datum.boolean false) = pos 0 ∷ []
payload (Datum.boolean true) = pos 1 ∷ []
payload (Datum.small_int a) = a ∷ []
payload (Datum.unsigned_small_int a) = pos a ∷ []
payload (Datum.integer a) = a ∷ []
payload (Datum.unsigned_integer a) = pos a ∷ []
payload (Datum.big_int a) = a ∷ []
payload (Datum.unsigned_big_int a) = pos a ∷ []
payload (Datum.real a) = float_key a ∷ []
payload (Datum.double a) = float_key a ∷ []
payload (Datum.var_char a) = map pos (codes a)
payload (Datum.char a) = map pos (codes a)
payload (Datum.text a) = map pos (codes a)
payload (Datum.binary a) = map pos a
payload (Datum.date a) = a ∷ []
payload (Datum.time a m) = pos a ∷ pos m ∷ []
payload (Datum.timestamp c a m) = c ∷ pos a ∷ pos m ∷ []
payload (Datum.timestamp_tz a) = a ∷ []
payload (Datum.uuid a) = map pos a
payload (Datum.uuid_v7 a) = map pos a
payload Datum.null = []

key : Datum → List ℤ
key d = pos (variant_idx d) ∷ payload d

cmp-map_pos : (xs ys : List ℕ) → cmp_list cmp_ℤ (map pos xs) (map pos ys) ≡ cmp_list compare xs ys
cmp-map_pos [] [] = refl
cmp-map_pos [] (y ∷ ys) = refl
cmp-map_pos (x ∷ xs) [] = refl
cmp-map_pos (x ∷ xs) (y ∷ ys) = ap (then_with (compare x y)) (cmp-map_pos xs ys)

cmp-one : (a b : ℤ) → cmp_list cmp_ℤ (a ∷ []) (b ∷ []) ≡ cmp_ℤ a b
cmp-one a b = ground arith

cmp-float : (a b : Float) → cmp_list cmp_ℤ (float_key a ∷ []) (float_key b ∷ []) ≡ total_cmp a b
unfolding float_key total_cmp
cmp-float a b = ground arith

cmp-bool :
    (a b : Bool)
    → cmp_list cmp_ℤ (payload (Datum.boolean a)) (payload (Datum.boolean b)) ≡ cmp_bool a b
unfolding payload cmp_bool
cmp-bool false false = refl
cmp-bool false true = refl
cmp-bool true false = refl
cmp-bool true true = refl

cmp-key : (a b : Datum) → cmp a b ≡ cmp_list cmp_ℤ (key a) (key b)
unfolding cmp key payload
cmp-key (Datum.boolean a) (Datum.boolean b) = sym (cmp-bool a b)
cmp-key (Datum.small_int a) (Datum.small_int b) = sym (cmp-one a b)
cmp-key (Datum.unsigned_small_int a) (Datum.unsigned_small_int b) = sym (cmp-one (pos a) (pos b))
cmp-key (Datum.integer a) (Datum.integer b) = sym (cmp-one a b)
cmp-key (Datum.unsigned_integer a) (Datum.unsigned_integer b) = sym (cmp-one (pos a) (pos b))
cmp-key (Datum.big_int a) (Datum.big_int b) = sym (cmp-one a b)
cmp-key (Datum.unsigned_big_int a) (Datum.unsigned_big_int b) = sym (cmp-one (pos a) (pos b))
cmp-key (Datum.real a) (Datum.real b) = sym (cmp-float a b)
cmp-key (Datum.double a) (Datum.double b) = sym (cmp-float a b)
cmp-key (Datum.var_char a) (Datum.var_char b) = sym (cmp-map_pos (codes a) (codes b))
cmp-key (Datum.char a) (Datum.char b) = sym (cmp-map_pos (codes a) (codes b))
cmp-key (Datum.text a) (Datum.text b) = sym (cmp-map_pos (codes a) (codes b))
cmp-key (Datum.binary a) (Datum.binary b) = sym (cmp-map_pos a b)
cmp-key (Datum.date a) (Datum.date b) = sym (cmp-one a b)
cmp-key (Datum.time a m) (Datum.time b n) = ground arith
cmp-key (Datum.timestamp c a m) (Datum.timestamp d b n) = ground arith
cmp-key (Datum.timestamp_tz a) (Datum.timestamp_tz b) = sym (cmp-one a b)
cmp-key (Datum.uuid a) (Datum.uuid b) = sym (cmp-map_pos a b)
cmp-key (Datum.uuid_v7 a) (Datum.uuid_v7 b) = sym (cmp-map_pos a b)
cmp-key Datum.null Datum.null = refl
cmp-key _ _ = refl

-- The pairs of one variant, by the laws of their payload's order; the others differ in the variant.
bools : (a b : Bool) → cmp_bool a b ≡ Ordering.eq → a ≡ b
unfolding cmp_bool
bools a b h = ground arith

floats : (a b : Float) → total_cmp a b ≡ Ordering.eq → a ≡ b
unfolding total_cmp
floats a b h = ground arith

ints : (a b : ℤ) → cmp_ℤ a b ≡ Ordering.eq → a ≡ b
ints a b = (cmp_ℤ-IsTotalOrder.cmp_eq_iff a b).0

nats : (a b : ℕ) → compare a b ≡ Ordering.eq → a ≡ b
nats a b h = ground arith

bytes : (a b : List ℕ) → cmp_list compare a b ≡ Ordering.eq → a ≡ b
bytes a b = ((cmp_list-IsTotalOrder compare-IsTotalOrder).cmp_eq_iff a b).0

strings : (a b : String) → cmp_str a b ≡ Ordering.eq → a ≡ b
unfolding cmp_str
strings a b h = codes-injective a b (bytes (codes a) (codes b) h)

eq_of_cmp : (a b : Datum) → cmp a b ≡ Ordering.eq → a ≡ b
unfolding cmp
eq_of_cmp (Datum.boolean a) (Datum.boolean b) h = ap Datum.boolean (bools a b h)
eq_of_cmp (Datum.small_int a) (Datum.small_int b) h = ap Datum.small_int (ints a b h)
eq_of_cmp (Datum.unsigned_small_int a) (Datum.unsigned_small_int b) h =
    ap Datum.unsigned_small_int (nats a b h)
eq_of_cmp (Datum.integer a) (Datum.integer b) h = ap Datum.integer (ints a b h)
eq_of_cmp (Datum.unsigned_integer a) (Datum.unsigned_integer b) h =
    ap Datum.unsigned_integer (nats a b h)
eq_of_cmp (Datum.big_int a) (Datum.big_int b) h = ap Datum.big_int (ints a b h)
eq_of_cmp (Datum.unsigned_big_int a) (Datum.unsigned_big_int b) h =
    ap Datum.unsigned_big_int (nats a b h)
eq_of_cmp (Datum.real a) (Datum.real b) h = ap Datum.real (floats a b h)
eq_of_cmp (Datum.double a) (Datum.double b) h = ap Datum.double (floats a b h)
eq_of_cmp (Datum.var_char a) (Datum.var_char b) h = ap Datum.var_char (strings a b h)
eq_of_cmp (Datum.char a) (Datum.char b) h = ap Datum.char (strings a b h)
eq_of_cmp (Datum.text a) (Datum.text b) h = ap Datum.text (strings a b h)
eq_of_cmp (Datum.binary a) (Datum.binary b) h = ap Datum.binary (bytes a b h)
eq_of_cmp (Datum.date a) (Datum.date b) h = ap Datum.date (ints a b h)
eq_of_cmp (Datum.time a m) (Datum.time b n) h = ground arith
eq_of_cmp (Datum.timestamp c a m) (Datum.timestamp d b n) h = ground arith
eq_of_cmp (Datum.timestamp_tz a) (Datum.timestamp_tz b) h = ap Datum.timestamp_tz (ints a b h)
eq_of_cmp (Datum.uuid a) (Datum.uuid b) h = ap Datum.uuid (bytes a b h)
eq_of_cmp (Datum.uuid_v7 a) (Datum.uuid_v7 b) h = ap Datum.uuid_v7 (bytes a b h)
eq_of_cmp Datum.null Datum.null h = refl
eq_of_cmp _ _ h = cc

abbrev keys_order : IsTotalOrder (cmp_list cmp_ℤ)
keys_order = cmp_list-IsTotalOrder cmp_ℤ-IsTotalOrder

-- `Datum::cmp` is a total order: it answers `Equal` on equal values alone, swapping its arguments
-- reverses the answer, and `Less` is transitive. Floats are compared by their bits.
pub cmp-IsTotalOrder : IsTotalOrder cmp
cmp-IsTotalOrder = record {
  cmp_eq_iff = λ a b.
      (eq_of_cmp a b, λ e. cmp-key a b ∙ (keys_order.cmp_eq_iff (key a) (key b)).1 (ap key e));
  cmp_flip = λ a b. rw (cmp-key a b, cmp-key b a) (keys_order.cmp_flip (key a) (key b));
  cmp_trans = λ a b c h k.
      cmp-key a c
      ∙ keys_order.cmp_trans (key a) (key b) (key c) (sym (cmp-key a b) ∙ h)
          (sym (cmp-key b c) ∙ k);
}
