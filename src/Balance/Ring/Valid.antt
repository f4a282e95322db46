-- ===== src/Balance/Ring/Valid.antt =====
-- The invariant of the ring, which every operation keeps.
use astra_store_xion.Base.{
  is_some, ℕ, ◌≡◌, refl, String, Bool, true, some, ◌++◌, ◌∙◌, arith, ltb, Bool-cases, inl, inr,
  nat_key, string_key,
}
use astra_store_xion.Base.Dict.{Dict, lookup, insert, lookup-insert, lookup-erase}
use astra_store_xion.Base.Sort.{IsOrdered}
use astra_store_xion.Balance.Model.{Platform, ShardStatus, Balancer, BalanceConfig, FileAccess}
use astra_store_xion.Balance.Ring.{
  is_member, with_node, without_node, keys_of, sort_keys, add_points, drop_points, points,
  idle_status, add_node, remove_node, update_node_status, new_balancer,
}
use astra_store_xion.Balance.Ring.Owner.{contains, contains-keys_of}
use astra_store_xion.Balance.Ring.Points.{
  contains-append, contains-sort_keys, sort_keys-IsOrdered, add_points-IsOrdered,
  drop_points-IsOrdered, lookup-add_points, lookup-drop_points,
}

module _ {F : Type 0} (p : Platform F) where
  -- The sorted keys are in order and are those of the ring; each entry is a virtual node of its
  -- node, which is a member.
  pub record IsRing (b : Balancer F) : Type 0 where
    pub keys_ordered : IsOrdered ltb b.sorted_keys
    pub ring_ordered : IsOrdered ltb (keys_of b.ring)
    pub same_keys : (k : ℕ) → contains k b.sorted_keys ≡ is_some (lookup k b.ring)
    pub own_points :
        (k : ℕ) (n : String)
        → lookup k b.ring ≡ some n
        → contains k (points p n 0 b.replicas) ≡ true
    pub members : (k : ℕ) (n : String) → lookup k b.ring ≡ some n → is_member n b ≡ true

  pub new_balancer-IsRing :
      (config : BalanceConfig F) (replicas : ℕ) → IsRing (new_balancer p config replicas)
  unfolding new_balancer lookup
  new_balancer-IsRing config replicas = record {
    keys_ordered = tt;
    ring_ordered = tt;
    same_keys = λ k. refl;
    own_points = λ k n e. cc;
    members = λ k n e. cc;
  }

  add_node-same_keys :
      (b : Balancer F) (node : String) (k : ℕ)
      → IsRing b
      → contains k (sort_keys (b.sorted_keys ++ points p node 0 b.replicas))
        ≡ is_some (lookup k (add_points p node 0 b.replicas b.ring))
  add_node-same_keys b node k h = ground (
    arith,
    contains-sort_keys k (b.sorted_keys ++ points p node 0 b.replicas),
    contains-append k b.sorted_keys (points p node 0 b.replicas),
    lookup-add_points p node k 0 b.replicas b.ring,
    h.same_keys k,
  )

  with_node-IsRing : (node : String) (b : Balancer F) → IsRing b → IsRing (with_node p node b)
  unfolding with_node
  with_node-IsRing node b h = record {
    keys_ordered = sort_keys-IsOrdered (b.sorted_keys ++ points p node 0 b.replicas);
    ring_ordered = add_points-IsOrdered p node 0 b.replicas b.ring h.ring_ordered;
    same_keys = λ k. add_node-same_keys b node k h;
    own_points = λ k n e.
        ground (arith, e, lookup-add_points p node k 0 b.replicas b.ring, h.own_points k n);
    members = λ k n e. ground (
      arith,
      e,
      lookup-add_points p node k 0 b.replicas b.ring,
      h.members k n,
      lookup-insert node n (idle_status p node) b.nodes,
      string_key.beq_iff node n,
    );
  }

  without_node-IsRing : (node : String) (b : Balancer F) → IsRing b → IsRing (without_node p node b)
  unfolding without_node
  without_node-IsRing node b h =
      let ring = drop_points p node 0 b.replicas b.ring in
      record {
        keys_ordered = sort_keys-IsOrdered (keys_of ring);
        ring_ordered = drop_points-IsOrdered p node 0 b.replicas b.ring h.ring_ordered;
        same_keys = λ k. contains-sort_keys k (keys_of ring) ∙ contains-keys_of k ring;
        own_points = λ k n e.
            ground (arith, e, lookup-drop_points p node k 0 b.replicas b.ring, h.own_points k n);
        members = λ k n e. ground (
          arith,
          e,
          lookup-drop_points p node k 0 b.replicas b.ring,
          h.members k n,
          h.own_points k n,
          lookup-erase node n b.nodes,
          string_key.beq_iff node n,
        );
      }

  pub add_node-IsRing : (node : String) (b : Balancer F) → IsRing b → IsRing (add_node p node b)
  unfolding add_node
  add_node-IsRing node b h = elim (Bool-cases (is_member node b)) [
    | inl e ↦ rw e h
    | inr e ↦ rw e (with_node-IsRing node b h)
  ]

  pub remove_node-IsRing :
      (node : String) (b : Balancer F) → IsRing b → IsRing (remove_node p node b)
  unfolding remove_node
  remove_node-IsRing node b h = elim (Bool-cases (is_member node b)) [
    | inl e ↦ rw e (without_node-IsRing node b h)
    | inr e ↦ rw e h
  ]

  -- The other fields change nothing of the ring, so long as no member is lost.
  pub set_others-IsRing :
      (b : Balancer F) (nodes : Dict String (ShardStatus F)) (running : Bool)
      (file_access : Dict String FileAccess)
      → ((n : String) → is_member n b ≡ true → is_some (lookup n nodes) ≡ true)
      → IsRing b
      → IsRing (record b { nodes = nodes; is_running = running; file_access = file_access })
  set_others-IsRing b nodes running file_access keeps h = record {
    keys_ordered = h.keys_ordered;
    ring_ordered = h.ring_ordered;
    same_keys = h.same_keys;
    own_points = h.own_points;
    members = λ k n e. keeps n (h.members k n e);
  }

  pub update_node_status-IsRing :
      (node : String) (status : ShardStatus F) (b : Balancer F)
      → IsRing b
      → IsRing (update_node_status p node status b)
  unfolding update_node_status
  update_node_status-IsRing node status b h = elim (Bool-cases (is_member node b)) [
    | inl e ↦ rw e (
        set_others-IsRing b (insert node status b.nodes) b.is_running b.file_access
          (λ n m. ground (arith, m, lookup-insert node n status b.nodes)) h)
    | inr e ↦ rw e h
  ]
