-- ===== src/Tzkt/Paths.antt =====
-- The paths of the indexer's big maps.
use Prim.Native.String.{◌++◌ as ◌<>◌}
use x4c.Base.{◌≡◌, refl, ap, true, ltb, leb, ◌^◌}
use x4c.Base.Int.{ℤ, pos_part, neg_part}
use x4c.Base.Text.{codes, show_int}
use x4c.Base.Text.Decimal.{codes-append, codes-show_int_injective}
use mathlib.Core.List.{◌++◌, append_cancel_left, append_cancel_right}
use x4c.Tzkt.Client.{big_map_path}

codes-big_map_path :
    (i : ℤ) → codes (big_map_path i) ≡ codes "/v1/bigmaps/" ++ (codes (show_int i) ++ codes "/keys")
codes-big_map_path i =
    rw (codes-append "/v1/bigmaps/" (show_int i <> "/keys"), codes-append (show_int i) "/keys") refl

-- Two identifiers in the range of an int64 whose big maps have the same path are equal.
pub big_map_path-injective :
    (i j : ℤ)
    → ltb (pos_part i) (2 ^ 63) ≡ true
    → leb (neg_part i) (2 ^ 63) ≡ true
    → ltb (pos_part j) (2 ^ 63) ≡ true
    → leb (neg_part j) (2 ^ 63) ≡ true
    → big_map_path i ≡ big_map_path j
    → i ≡ j
big_map_path-injective i j hi li hj lj e =
    let same : codes (big_map_path i) ≡ codes (big_map_path j) = ap codes e in
    let parts = rw (codes-big_map_path i, codes-big_map_path j) at same in
    codes-show_int_injective i j hi li hj lj (
      append_cancel_right (codes (show_int i)) (codes (show_int j)) (codes "/keys") (
        append_cancel_left (codes "/v1/bigmaps/") (codes (show_int i) ++ codes "/keys")
          (codes (show_int j) ++ codes "/keys") parts))
