-- ===== src/Object/Filter/Tests.antt =====
-- Filters of objects on concrete bytes (src/object/filter.rs).
use yubihsm_rs.Base.{ℕ, ◌≡◌, ◌≢◌, refl, arith, List, [], ◌∷◌, ok, none, some}
use yubihsm_rs.Algorithm.Any.{Algorithm}
use yubihsm_rs.Algorithm.Wrap.{WrapAlgorithm}
use yubihsm_rs.Algorithm.Any as Algorithms
use yubihsm_rs.Object.Types as ObjectTypes
use yubihsm_rs.Object.Types.{ObjectType}
use yubihsm_rs.Object.Filter.{
  Filter, algorithm, domains, id, object_type, serialize, serialize_all, parse_all,
}
use yubihsm_rs.Object.Filter.Ends.{filter_parse_all-ne-none}
use yubihsm_rs.Object.Filter.RoundTrip.{filter_parse_all-serialize_all}
use yubihsm_rs.Wire.Integers.{be_bytes}

abbrev filters : List Filter
filters =
    id 7
    ∷ object_type ObjectType.wrap_key
    ∷ domains 3
    ∷ algorithm (Algorithm.wrap WrapAlgorithm.aes128_ccm)
    ∷ []

abbrev filter_bytes : List ℕ
filter_bytes = 1 ∷ 0 ∷ 7 ∷ 2 ∷ 4 ∷ 3 ∷ 0 ∷ 3 ∷ 5 ∷ 29 ∷ []

serialize_filters : serialize_all filters ≡ filter_bytes
unfolding serialize_all serialize be_bytes Algorithms.to_u8 ObjectTypes.to_u8
serialize_filters = refl

filter_parse_all-serialize_all_example : parse_all 10 (serialize_all filters) ≡ some (ok filters)
filter_parse_all-serialize_all_example =
    filter_parse_all-serialize_all 10 filters (omega arith, (tt, (omega arith, (tt, tt))))
      (rw serialize_filters (omega arith))

filter_parse_all-ne-none_example : parse_all 3 (1 ∷ 0 ∷ 7 ∷ []) ≢ none
filter_parse_all-ne-none_example = filter_parse_all-ne-none 3 (1 ∷ 0 ∷ 7 ∷ []) (omega arith)
