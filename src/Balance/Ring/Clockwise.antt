-- ===== src/Balance/Ring/Clockwise.antt =====
-- `GetNode` against the owner of the key's hash.
use astra_store_xion.Base.{
  ap, ℕ, ◌<◌, ◌≡◌, refl, sym, ◌∙◌, String, true, Option, none, some, [], ◌∷◌, ◌==◌, arith, length,
  inl, inr, Bool-cases, Option-cases, nat_key,
}
use astra_store_xion.Base.Dict.{Dict, lookup}
use astra_store_xion.Balance.Model.{Platform, Balancer, Ends, returns, fails, ring_empty}
use astra_store_xion.Balance.Ring.{
  is_member, keys_of, key_test, search, node_at, node_found, hash_key, get_node,
}
use astra_store_xion.Balance.Ring.Search.{Parts, Finds, search-Finds}
use astra_store_xion.Balance.Ring.Owner.{
  entry_from-some, or_else, entry_from, owner, first_ge, first_ge-same, contains, contains-keys_of,
  Parts-first_ge, entry_from-lookup, entry_from-none,
}
use astra_store_xion.Balance.Ring.Valid.{IsRing}

-- An empty ring is an error.
abbrev pub answer : Option String → Ends String
answer none = fails ring_empty
answer (some n) = returns n

node_at-lookup :
    (ring : Dict ℕ String) (k : ℕ) (n : String)
    → lookup k ring ≡ some n
    → node_at ring (some k) ≡ returns n
unfolding node_at
node_at-lookup ring k n e = rw (e, node_at) refl

-- The node of the first key clockwise is the owner.
node_at-owner :
    (h : ℕ) (ring : Dict ℕ String)
    → 0 < length ring
    → node_at ring (or_else (first_ge h (keys_of ring)) (first_ge 0 (keys_of ring)))
      ≡ answer (owner h ring)
node_at-owner h [] some_key = absurd (omega arith)
node_at-owner h ((i, m) ∷ r) some_key =
    let ring : Dict ℕ String = (i, m) ∷ r in
    elim (Option-cases (first_ge h (keys_of ring))) [
      | inl e ↦
          let (n, stored, entry) = entry_from-some 0 ring i (ground arith) in
          let first : first_ge 0 (keys_of ring) ≡ some i = ground arith in
          simp (e, first, entry_from-none h ring e, entry, node_at-lookup ring i n stored)
      | inr (k, e) ↦
          let (n, stored, entry) = entry_from-some h ring k e in
          simp (e, entry, node_at-lookup ring k n stored)
    ]

module _ {F : Type 0} (p : Platform F) where
  -- `GetNode` gives the node of the first virtual node clockwise from the key's hash, and the first
  -- of the ring past its end; it fails only on an empty ring. The binary search, the sorted keys and
  -- the ring agree: the ring is well formed.
  pub get_node_clockwise :
      (key : String) (b : Balancer F)
      → IsRing p b
      → get_node p key b ≡ answer (owner (hash_key p key) b.ring)
  unfolding get_node
  get_node_clockwise key b h = elim (Bool-cases (length b.ring == 0)) [
    | inl e ↦ rw e (empty b.ring e)
    | inr e ↦ rw e (
        served (search (length b.sorted_keys) (key_test b.sorted_keys (hash_key p key)))
          (search-Finds (key_test b.sorted_keys (hash_key p key)) (length b.sorted_keys))
          (ground (arith, e)))
  ]
    where
      empty :
          (ring : Dict ℕ String)
          → (length ring == 0) ≡ true
          → fails ring_empty ≡ answer (owner (hash_key p key) ring)
      empty [] e = refl
      empty ((k, n) ∷ r) e = ground arith

      same : (k : ℕ) → contains k b.sorted_keys ≡ contains k (keys_of b.ring)
      same k = h.same_keys k ∙ sym (contains-keys_of k b.ring)

      first : (j : ℕ) → first_ge j b.sorted_keys ≡ first_ge j (keys_of b.ring)
      first j = first_ge-same j b.sorted_keys (keys_of b.ring) h.keys_ordered h.ring_ordered same

      served :
          (found : Option ℕ)
          → Finds found (Parts (key_test b.sorted_keys (hash_key p key)) (length b.sorted_keys))
          → 0 < length b.ring
          → node_found b.ring b.sorted_keys found ≡ answer (owner (hash_key p key) b.ring)
      served none f some_key = elim f [ ]
      served (some r) f some_key =
          simp
            (
              Parts-first_ge (hash_key p key) b.sorted_keys r h.keys_ordered f,
              first (hash_key p key),
              first 0,
            )
            (node_at-owner (hash_key p key) b.ring some_key)

  owner-member :
      (j : ℕ) (b : Balancer F) (n : String)
      → IsRing p b
      → entry_from j b.ring ≡ some n
      → is_member n b ≡ true
  owner-member j b n h e = elim (Option-cases (first_ge j (keys_of b.ring))) [
    | inl past ↦
        let none_left = entry_from-none j b.ring past in
        let wrong : none ≡ some n = sym none_left ∙ e in cc
    | inr (k, first) ↦ h.members k n (entry_from-lookup j b.ring k first ∙ e)
  ]

  -- On a well-formed ring with at least one virtual node, `GetNode` gives a node that is a member.
  pub get_node_serves :
      (key : String) (b : Balancer F)
      → IsRing p b
      → 0 < length b.ring
      → (n : String) × (get_node p key b ≡ returns n) × (is_member n b ≡ true)
  get_node_serves key b h some_key =
      let (n, e) = owned (hash_key p key) b.ring some_key in
      (n, get_node_clockwise key b h ∙ ap answer e, member n e)
    where
      owned :
          (j : ℕ) (ring : Dict ℕ String) → 0 < length ring → (n : String) × (owner j ring ≡ some n)
      owned j [] some_key = absurd (omega arith)
      owned j ((k, m) ∷ r) some_key = elim (Option-cases (entry_from j ((k, m) ∷ r))) [
        | inl e ↦ (m, ground (arith, e))
        | inr (n, e) ↦ (n, rw e refl)
      ]

      member : (n : String) → owner (hash_key p key) b.ring ≡ some n → is_member n b ≡ true
      member n e = elim (Option-cases (entry_from (hash_key p key) b.ring)) [
        | inl past ↦ owner-member 0 b n h (rw past at e)
        | inr (m, here) ↦
            let same : some m ≡ some n = rw here at e in
            owner-member (hash_key p key) b n h (here ∙ same)
      ]
