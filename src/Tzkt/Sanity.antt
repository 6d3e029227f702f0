-- ===== src/Tzkt/Sanity.antt =====
-- The check of the items of a big map: GetBigMapContents in bigmap.go.
use x4c.Base.{
  ◌≡◌, refl, ◌≢◌, List, [], ◌∷◌, ok, err, ◌↔◌, ◌==◌, string_eq, if◌then◌else◌, arith, All, ==_iff,
  bind-eq-ok, lift-eq-ok, errorf, wrap, or_fail, lift, pure, subst, ◌>>=◌,
}
use x4c.Base.Int.{ℤ, pos, eqb_ℤ, eqb_ℤ_iff}
use x4c.Json.{decode_slice}
use x4c.Host.{Host}
use x4c.Tzkt.Types.{BigMapItem, decode_item, no_item}
use x4c.Tzkt.Client.{TzKtClient, make_request, big_map_path, check_items, get_big_map_contents}

abbrev pub IsSane : BigMapItem → Type 0
IsSane item = (item.identifier ≢ pos 0) × (item.hash ≢ "")

check_items-cons :
    (item : BigMapItem) (items : List BigMapItem)
    → check_items (item ∷ items) ≡ (
        if eqb_ℤ item.identifier (pos 0)
        then err (errorf "item had invalid identifier")
        else if item.hash == ""
        then err (errorf "item had empty hash")
        else check_items items)
unfolding check_items
check_items-cons item items = refl

check_items-nil : check_items [] ≡ ok tt
unfolding check_items
check_items-nil = refl

pub check_items-IsSane : (items : List BigMapItem) → check_items items ≡ ok tt ↔ All IsSane items
check_items-IsSane [] = (λ _. tt, λ _. check_items-nil)
check_items-IsSane (item ∷ items) = ground (
  arith,
  check_items-IsSane items,
  check_items-cons item items,
  eqb_ℤ_iff item.identifier (pos 0),
  ==_iff item.hash "",
)

module _ {H : Host} {S : Type 0} (c : TzKtClient H S) where
  -- The items that are returned are sane: each has an identifier that is not 0, and a hash that is
  -- not empty.
  pub get_big_map_contents-IsSane :
      (identifier : ℤ) (s : S) {items : List BigMapItem} {s' : S}
      → get_big_map_contents c identifier s ≡ (ok items, s')
      → All IsSane items
  unfolding get_big_map_contents
  get_big_map_contents-IsSane identifier s h =
      let request =
        or_fail (make_request c (big_map_path identifier) (decode_slice decode_item no_item) [])
          (wrap "failed to make request") in
      let (results, s1, _, h1) =
        bind-eq-ok request (λ r. lift (check_items r) >>= λ _. pure r) s h in
      let (_, s2, e, h2) = bind-eq-ok (lift (check_items results)) (λ _. pure results) s1 h1 in
      let (checked, _) = lift-eq-ok (check_items results) s1 e in
      subst (All IsSane) (ground (arith, h2)) ((check_items-IsSane results).0 checked)
