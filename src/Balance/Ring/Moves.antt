-- ===== src/Balance/Ring/Moves.antt =====
-- What joining and leaving does to the owners of the keys.
use astra_store_xion.Base.{
  is_some, subst, ℕ, zero, suc, ◌+◌, ◌≡◌, refl, sym, ap, ◌∙◌, String, true, Option, none, some, [],
  ◌∷◌, arith, ltb, ◌≢◌, ◌⊎◌, inl, inr, Bool-cases, Option-cases, nat_key, string_key,
}
use astra_store_xion.Base.Dict.{Dict, lookup, insert, erase}
use astra_store_xion.Base.Sort.{IsOrdered}
use astra_store_xion.Balance.Model.{BalanceConfig, Platform, Balancer, returns, fails, ring_empty}
use astra_store_xion.Balance.Ring.{
  new_balancer, is_member, keys_of, hash_key, get_node, points, add_points, drop_points, add_node,
  with_node, remove_node, without_node, virtual_key,
}
use astra_store_xion.Balance.Ring.Owner.{
  entry_from, owner, first_ge, contains, contains-keys_of, IsLeast, first_ge-IsLeast,
  IsLeast-unique, entry_from-lookup, entry_from-none, entry_from-some,
}
use astra_store_xion.Balance.Ring.Points.{lookup-drop_points, drop_points-IsOrdered}
use astra_store_xion.Balance.Ring.Valid.{IsRing, add_node-IsRing, remove_node-IsRing}
use astra_store_xion.Balance.Ring.Clockwise.{answer, get_node_clockwise}

entry_from-insert :
    (h j : ℕ) (n : String) (ring : Dict ℕ String)
    → (entry_from h (insert j n ring) ≡ entry_from h ring)
      ⊎ (entry_from h (insert j n ring) ≡ some n)
unfolding insert
entry_from-insert h j n [] = ground arith
entry_from-insert h j n ((i, m) ∷ r) = ground (arith, entry_from-insert h j n r)

owner-insert :
    (h j : ℕ) (n : String) (ring : Dict ℕ String)
    → (owner h (insert j n ring) ≡ owner h ring) ⊎ (owner h (insert j n ring) ≡ some n)
owner-insert h j n ring = ground (arith, entry_from-insert h j n ring, entry_from-insert 0 j n ring)

module _ {F : Type 0} (p : Platform F) where
  owner-add_points :
      (h : ℕ) (node : String) (i n : ℕ) (ring : Dict ℕ String)
      → (owner h (add_points p node i n ring) ≡ owner h ring)
        ⊎ (owner h (add_points p node i n ring) ≡ some node)
  unfolding add_points
  owner-add_points h node i zero ring = inl refl
  owner-add_points h node i (suc n) ring =
      let more = insert (virtual_key p node i) node ring in
      elim (owner-add_points h node (i + 1) n more) [
        | inr new ↦ inr new
        | inl same ↦ elim (owner-insert h (virtual_key p node i) node ring) [
          | inl old ↦ inl (same ∙ old)
          | inr new ↦ inr (same ∙ new)
        ]
      ]

  owner-add_node :
      (h : ℕ) (node : String) (b : Balancer F)
      → (owner h (add_node p node b).ring ≡ owner h b.ring)
        ⊎ (owner h (add_node p node b).ring ≡ some node)
  unfolding add_node with_node
  owner-add_node h node b = elim (Bool-cases (is_member node b)) [
    | inl e ↦ rw e (inl refl)
    | inr e ↦ rw e (owner-add_points h node 0 b.replicas b.ring)
  ]

  -- When a node joins a well-formed ring, every key stays where it is or moves to the new node, also
  -- where virtual nodes collide.
  pub add_node_moves :
      (key node : String) (b : Balancer F)
      → IsRing p b
      → (get_node p key (add_node p node b) ≡ get_node p key b)
        ⊎ (get_node p key (add_node p node b) ≡ returns node)
  add_node_moves key node b h =
      let before = get_node_clockwise p key b h in
      let after = get_node_clockwise p key (add_node p node b) (add_node-IsRing p node b h) in
      elim (owner-add_node (hash_key p key) node b) [
        | inl same ↦ inl (after ∙ ap answer same ∙ sym before)
        | inr new ↦ inr (after ∙ ap answer new)
      ]

-- A ring that keeps the entries of a node and gains none keeps what the node owns.
module _ (r s : Dict ℕ String) (m : String) (ordered_r : IsOrdered ltb (keys_of r))
    (ordered_s : IsOrdered ltb (keys_of s))
    (kept : (k : ℕ) → lookup k r ≡ some m → lookup k s ≡ some m)
    (fewer : (k : ℕ) → is_some (lookup k s) ≡ true → is_some (lookup k r) ≡ true) where
  fewer_keys : (k : ℕ) → contains k (keys_of s) ≡ true → contains k (keys_of r) ≡ true
  fewer_keys k e = contains-keys_of k r ∙ fewer k (sym (contains-keys_of k s) ∙ e)

  entry_kept : (h : ℕ) → entry_from h r ≡ some m → entry_from h s ≡ some m
  entry_kept h e = elim (Option-cases (first_ge h (keys_of r))) [
    | inl past ↦ let wrong : none ≡ some m = sym (entry_from-none h r past) ∙ e in cc
    | inr (k, first) ↦
        let stored = kept k (entry_from-lookup h r k first ∙ e) in
        let least : IsLeast h (keys_of r) (some k) =
          subst (IsLeast h (keys_of r)) first (first_ge-IsLeast h (keys_of r) ordered_r) in
        let still : IsLeast h (keys_of s) (some k) =
          (contains-keys_of k s ∙ ap is_some stored, least.1, λ j c. least.2 j (fewer_keys j c)) in
        let same =
          IsLeast-unique h (keys_of s) (keys_of s) (first_ge h (keys_of s)) (some k) (λ j. refl)
            (first_ge-IsLeast h (keys_of s) ordered_s) still in
        sym (entry_from-lookup h s k same) ∙ stored
  ]

  none_kept : (h : ℕ) → entry_from h r ≡ none → entry_from h s ≡ none
  none_kept h e = elim (Option-cases (first_ge h (keys_of r))) [
    | inr (k, first) ↦
        let (n, stored, entry) = entry_from-some h r k first in
        let wrong : none ≡ some n = sym e ∙ entry in cc
    | inl past ↦
        let all : IsLeast h (keys_of r) none =
          subst (IsLeast h (keys_of r)) past (first_ge-IsLeast h (keys_of r) ordered_r) in
        entry_from-none h s (
          IsLeast-unique h (keys_of s) (keys_of s) (first_ge h (keys_of s)) none (λ j. refl)
            (first_ge-IsLeast h (keys_of s) ordered_s) (λ j c. all j (fewer_keys j c)))
  ]

  owner_kept : (h : ℕ) → owner h r ≡ some m → owner h s ≡ some m
  owner_kept h e = elim (Option-cases (entry_from h r)) [
    | inl past ↦
        let from_start : entry_from 0 r ≡ some m = rw past at e in
        rw (none_kept h past) (entry_kept 0 from_start)
    | inr (n, here) ↦
        let same : some n ≡ some m = rw here at e in rw (entry_kept h (here ∙ same)) refl
  ]

answer-returns : (o : Option String) (m : String) → answer o ≡ returns m → o ≡ some m
answer-returns none m e = cc
answer-returns (some n) m e = cc

-- No virtual node of the node has the key of another node's.
abbrev pub IsApart : {F : Type 0} → Platform F → String → Balancer F → Type 0
IsApart p node b =
    (k : ℕ) (n : String)
    → lookup k b.ring ≡ some n
    → contains k (points p node 0 b.replicas) ≡ true
    → n ≡ node

module _ {F : Type 0} (p : Platform F) where
  owner-without_node :
      (h : ℕ) (node m : String) (b : Balancer F)
      → IsRing p b
      → IsRing p (without_node p node b)
      → IsApart p node b
      → m ≢ node
      → owner h b.ring ≡ some m
      → owner h (without_node p node b).ring ≡ some m
  unfolding without_node
  owner-without_node h node m b ring after apart other e =
      owner_kept b.ring (drop_points p node 0 b.replicas b.ring) m ring.ring_ordered
        (drop_points-IsOrdered p node 0 b.replicas b.ring ring.ring_ordered)
        (λ k at. elim (Bool-cases (contains k (points p node 0 b.replicas))) [
          | inl own ↦ absurd (other (apart k m at own))
          | inr not_own ↦ lookup-drop_points p node k 0 b.replicas b.ring ∙ rw not_own at
        ])
        (λ k at. ground (arith, at, lookup-drop_points p node k 0 b.replicas b.ring)) h e

  -- When a node leaves a well-formed ring, the keys of the other nodes stay where they are, as long
  -- as no virtual node of the leaving node collides with one of another node.
  pub remove_node_keeps :
      (key node m : String) (b : Balancer F)
      → IsRing p b
      → IsApart p node b
      → m ≢ node
      → get_node p key b ≡ returns m
      → get_node p key (remove_node p node b) ≡ returns m
  unfolding remove_node
  remove_node_keeps key node m b ring apart other e =
      let owned =
        answer-returns (owner (hash_key p key) b.ring) m
          (sym (get_node_clockwise p key b ring) ∙ e) in
      elim (Bool-cases (is_member node b)) [
        | inr no_member ↦ rw no_member e
        | inl member ↦
            let after : IsRing p (without_node p node b) =
              rw member at (remove_node-IsRing p node b ring) in
            rw member (
              get_node_clockwise p key (without_node p node b) after
              ∙ ap answer
                  (owner-without_node (hash_key p key) node m b ring after apart other owned))
      ]

  -- Two nodes whose only virtual nodes collide: when the later one joins and leaves again, the
  -- earlier one is still a member, but the ring is empty and `GetNode` fails.
  pub collision_orphans :
      (config : BalanceConfig F) (a c key : String)
      → virtual_key p a 0 ≡ virtual_key p c 0
      → a ≢ c
      → (get_node p key (remove_node p c (add_node p c (add_node p a (new_balancer p config 1))))
          ≡ fails ring_empty)
        × (is_member a (remove_node p c (add_node p c (add_node p a (new_balancer p config 1))))
            ≡ true)
  unfolding get_node remove_node without_node add_node with_node new_balancer add_points drop_points
      insert erase lookup
  collision_orphans config a c key same other = ground (
    arith,
    same,
    other,
    string_key.beq_iff a c,
    string_key.beq_iff c a,
    string_key.beq_iff a a,
    string_key.beq_iff c c,
  )
