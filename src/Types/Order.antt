-- ===== src/Types/Order.antt =====
-- storage/types.rs: `impl Ord for Datum`, the order of index keys.
pub mod Total
use Prim.Native.Char.{Char, code}
use heliondb.Base.{
  ℕ, String, Bool, true, false, compare, Ordering, List, [], ◌∷◌, map, ◌≡◌, refl, ◌↔◌, arith, ◌==◌,
  if◌then◌else◌, ap, ◌∙◌, sym,
}
use heliondb.Base.Int.{ℤ, pos, negsuc}
use heliondb.Base.Text.{codes}
use heliondb.Base.Compare.{
  IsTotalOrder, cmp_ℤ, cmp_list, then_with, cmp_ℤ-IsTotalOrder, cmp_list-IsTotalOrder,
}
use heliondb.Types.Datum.{Datum, Float}

variant_idx : Datum → ℕ
variant_idx (Datum.boolean _) = 0
variant_idx (Datum.small_int _) = 1
variant_idx (Datum.unsigned_small_int _) = 2
variant_idx (Datum.integer _) = 3
variant_idx (Datum.unsigned_integer _) = 4
variant_idx (Datum.big_int _) = 5
variant_idx (Datum.unsigned_big_int _) = 6
variant_idx (Datum.real _) = 7
variant_idx (Datum.double _) = 8
variant_idx (Datum.var_char _) = 9
variant_idx (Datum.char _) = 10
variant_idx (Datum.text _) = 11
variant_idx (Datum.binary _) = 12
variant_idx (Datum.date _) = 13
variant_idx (Datum.time _ _) = 14
variant_idx (Datum.timestamp _ _ _) = 15
variant_idx (Datum.timestamp_tz _) = 16
variant_idx (Datum.uuid _) = 17
variant_idx (Datum.uuid_v7 _) = 18
variant_idx Datum.null = 19

unfoldable pub cmp_bool : Bool → Bool → Ordering
cmp_bool false true = Ordering.lt
cmp_bool true false = Ordering.gt
cmp_bool _ _ = Ordering.eq

-- `f64::total_cmp`: the bits as a signed integer, the magnitude flipped under a negative sign.
total_cmp : Float → Float → Ordering
total_cmp a b = by_sign a.sign b.sign
  where
    by_sign : Bool → Bool → Ordering
    by_sign false false = compare a.magnitude b.magnitude
    by_sign false true = Ordering.gt
    by_sign true false = Ordering.lt
    by_sign true true = compare b.magnitude a.magnitude

-- `str::cmp`: UTF-8 bytes in order, which is the order of the code points.
unfoldable pub cmp_str : String → String → Ordering
cmp_str a b = cmp_list compare (codes a) (codes b)

-- The `match` on two values of one variant; any other pair compares the variants.
cmp_payload : Datum → Datum → Ordering
unfolding variant_idx cmp_bool total_cmp cmp_str
cmp_payload (Datum.boolean a) (Datum.boolean b) = cmp_bool a b
cmp_payload (Datum.small_int a) (Datum.small_int b) = cmp_ℤ a b
cmp_payload (Datum.unsigned_small_int a) (Datum.unsigned_small_int b) = compare a b
cmp_payload (Datum.integer a) (Datum.integer b) = cmp_ℤ a b
cmp_payload (Datum.unsigned_integer a) (Datum.unsigned_integer b) = compare a b
cmp_payload (Datum.big_int a) (Datum.big_int b) = cmp_ℤ a b
cmp_payload (Datum.unsigned_big_int a) (Datum.unsigned_big_int b) = compare a b
cmp_payload (Datum.real a) (Datum.real b) = total_cmp a b
cmp_payload (Datum.double a) (Datum.double b) = total_cmp a b
cmp_payload (Datum.var_char a) (Datum.var_char b) = cmp_str a b
cmp_payload (Datum.char a) (Datum.char b) = cmp_str a b
cmp_payload (Datum.text a) (Datum.text b) = cmp_str a b
cmp_payload (Datum.binary a) (Datum.binary b) = cmp_list compare a b
cmp_payload (Datum.date a) (Datum.date b) = cmp_ℤ a b
cmp_payload (Datum.time a m) (Datum.time b n) = then_with (compare a b) (compare m n)
cmp_payload (Datum.timestamp c a m) (Datum.timestamp d b n) =
    then_with (cmp_ℤ c d) (then_with (compare a b) (compare m n))
cmp_payload (Datum.timestamp_tz a) (Datum.timestamp_tz b) = cmp_ℤ a b
cmp_payload (Datum.uuid a) (Datum.uuid b) = cmp_list compare a b
cmp_payload (Datum.uuid_v7 a) (Datum.uuid_v7 b) = cmp_list compare a b
cmp_payload Datum.null Datum.null = Ordering.eq
cmp_payload a b = compare (variant_idx a) (variant_idx b)

-- `Datum::cmp`.
unfoldable pub cmp : Datum → Datum → Ordering
unfolding variant_idx cmp_payload
cmp a b =
    if variant_idx a == variant_idx b
    then cmp_payload a b
    else compare (variant_idx a) (variant_idx b)
