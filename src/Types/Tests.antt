-- ===== src/Types/Tests.antt =====
-- The coercion laws at concrete values.
use heliondb.Base.{ℕ, ◌/◌, ◌≡◌, refl, List, [], ◌∷◌, none, some, get_elem?}
use heliondb.Base.Int.{negsuc}
use heliondb.Types.Datum.{DataType, Datum}
use heliondb.Error.{ok}
use heliondb.Types.Coerce.{coerce_datum}

-- The version of a UUID: the upper half of its seventh byte.
abbrev version_num : List ℕ → ℕ
version_num bytes = elim (get_elem? bytes 6) [ none ↦ 0 | some b ↦ b / 16 ]

abbrev uuid_bytes : List ℕ
uuid_bytes = 1 ∷ 146 ∷ 30 ∷ 7 ∷ 9 ∷ 200 ∷ 125 ∷ 4 ∷ 128 ∷ 1 ∷ 2 ∷ 3 ∷ 4 ∷ 5 ∷ 6 ∷ 7 ∷ []

uuid_coerced :
    coerce_datum version_num (Datum.uuid uuid_bytes) DataType.uuid_v7
    ≡ ok (Datum.uuid_v7 uuid_bytes)
unfolding coerce_datum
uuid_coerced = refl

big_coerced :
    coerce_datum version_num (Datum.big_int (negsuc 2147483647)) DataType.integer
    ≡ ok (Datum.integer (negsuc 2147483647))
unfolding coerce_datum
big_coerced = refl
