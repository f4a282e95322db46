-- ===== src/Balance/Ring/Points.antt =====
-- What the loops of `AddNode` and `RemoveNode` do to the ring, key by key.
use astra_store_xion.Base.{
  ℕ, zero, suc, ◌+◌, ◌≡◌, refl, String, false, ◌||◌, none, some, List, [], ◌∷◌, ◌++◌, arith, ltb,
  ◌==◌, if◌then◌else◌, nat_key,
}
use astra_store_xion.Base.Dict.{Dict, lookup, insert, erase, lookup-insert, lookup-erase}
use astra_store_xion.Base.Sort.{IsOrdered, Follows, sort_by, insert_by, sort_by-IsOrdered}
use astra_store_xion.Balance.Model.{Platform}
use astra_store_xion.Balance.Ring.{keys_of, sort_keys, virtual_key, add_points, drop_points, points}
use astra_store_xion.Balance.Ring.Owner.{contains}

pub contains-append :
    (k : ℕ) (xs ys : List ℕ) → contains k (xs ++ ys) ≡ (contains k xs || contains k ys)
contains-append k [] ys = refl
contains-append k (x ∷ xs) ys = ground (arith, contains-append k xs ys)

contains-insert_by :
    (k j : ℕ) (xs : List ℕ) → contains k (insert_by ltb j xs) ≡ (j == k || contains k xs)
unfolding insert_by
contains-insert_by k j [] = refl
contains-insert_by k j (x ∷ xs) = ground (arith, contains-insert_by k j xs)

pub contains-sort_keys : (k : ℕ) (xs : List ℕ) → contains k (sort_keys xs) ≡ contains k xs
unfolding sort_keys sort_by
contains-sort_keys k [] = refl
contains-sort_keys k (x ∷ xs) =
    ground (arith, contains-sort_keys k xs, contains-insert_by k x (sort_by ltb xs))

pub sort_keys-IsOrdered : (xs : List ℕ) → IsOrdered ltb (sort_keys xs)
unfolding sort_keys
sort_keys-IsOrdered xs = sort_by-IsOrdered ltb (λ x y e. ground (arith, e)) xs

Follows-insert :
    (k j : ℕ) (n : String) (ring : Dict ℕ String)
    → ltb j k ≡ false
    → Follows ltb k (keys_of ring)
    → Follows ltb k (keys_of (insert j n ring))
unfolding insert
Follows-insert k j n [] e f = e
Follows-insert k j n ((i, m) ∷ r) e f = ground arith

insert-IsOrdered :
    (j : ℕ) (n : String) (ring : Dict ℕ String)
    → IsOrdered ltb (keys_of ring)
    → IsOrdered ltb (keys_of (insert j n ring))
unfolding insert
insert-IsOrdered j n [] o = (tt, tt)
insert-IsOrdered j n ((i, m) ∷ r) o =
    ground (arith, insert-IsOrdered j n r o.1, Follows-insert i j n r)

Follows-erase :
    (k j : ℕ) (ring : Dict ℕ String)
    → Follows ltb k (keys_of ring)
    → IsOrdered ltb (keys_of ring)
    → Follows ltb k (keys_of (erase j ring))
unfolding erase
Follows-erase k j [] f o = tt
Follows-erase k j ((i, m) ∷ []) f o = ground arith
Follows-erase k j ((i, m) ∷ (l, q) ∷ r) f o =
    ground (arith, Follows-erase k j ((l, q) ∷ r) (ground (arith, f, o.0)) o.1)

erase-IsOrdered :
    (j : ℕ) (ring : Dict ℕ String)
    → IsOrdered ltb (keys_of ring)
    → IsOrdered ltb (keys_of (erase j ring))
unfolding erase
erase-IsOrdered j [] o = tt
erase-IsOrdered j ((i, m) ∷ r) o =
    ground (arith, erase-IsOrdered j r o.1, Follows-erase i j r o.0 o.1)

module _ {F : Type 0} (p : Platform F) (node : String) where
  pub add_points-IsOrdered :
      (i n : ℕ) (ring : Dict ℕ String)
      → IsOrdered ltb (keys_of ring)
      → IsOrdered ltb (keys_of (add_points p node i n ring))
  unfolding add_points
  add_points-IsOrdered i zero ring o = o
  add_points-IsOrdered i (suc n) ring o =
      add_points-IsOrdered (i + 1) n (insert (virtual_key p node i) node ring)
        (insert-IsOrdered (virtual_key p node i) node ring o)

  pub drop_points-IsOrdered :
      (i n : ℕ) (ring : Dict ℕ String)
      → IsOrdered ltb (keys_of ring)
      → IsOrdered ltb (keys_of (drop_points p node i n ring))
  unfolding drop_points
  drop_points-IsOrdered i zero ring o = o
  drop_points-IsOrdered i (suc n) ring o =
      drop_points-IsOrdered (i + 1) n (erase (virtual_key p node i) ring)
        (erase-IsOrdered (virtual_key p node i) ring o)

  pub lookup-add_points :
      (k i n : ℕ) (ring : Dict ℕ String)
      → lookup k (add_points p node i n ring)
        ≡ (if contains k (points p node i n) then some node else lookup k ring)
  unfolding add_points points
  lookup-add_points k i zero ring = refl
  lookup-add_points k i (suc n) ring =
      let key = virtual_key p node i in
      ground
        (arith, lookup-add_points k (i + 1) n (insert key node ring), lookup-insert key k node ring)

  pub lookup-drop_points :
      (k i n : ℕ) (ring : Dict ℕ String)
      → lookup k (drop_points p node i n ring)
        ≡ (if contains k (points p node i n) then none else lookup k ring)
  unfolding drop_points points
  lookup-drop_points k i zero ring = refl
  lookup-drop_points k i (suc n) ring =
      let key = virtual_key p node i in
      ground (arith, lookup-drop_points k (i + 1) n (erase key ring), lookup-erase key k ring)
