-- ===== src/Balance/Ring.antt =====
-- The hash ring of pkg/balance/consistent_hash.go: `AddNode`, `RemoveNode`, `GetNode`.
pub mod Search
pub mod Owner
pub mod Points
pub mod Valid
pub mod Clockwise
pub mod Moves
use Prim.Native.String
use astra_store_xion.Base.{
  is_some, ℕ, zero, suc, ◌+◌, ◌/◌, String, Bool, true, false, Option, none, some, List, [], ◌∷◌,
  ◌++◌, ltb, leb, ◌==◌, length, string_key, nat_key, if◌then◌else◌,
}
use astra_store_xion.Base.Dict.{Dict, lookup, insert, erase}
use astra_store_xion.Base.Sort.{sort_by}
use astra_store_xion.Balance.Model.{
  Platform, ShardStatus, BalanceConfig, Balancer, ring_empty, Ends, returns, fails, panics,
}

-- `sort.Search` of the standard library: the least index at which the test holds, if it holds from
-- some index on. `none` means that the fuel has run out.
unfoldable pub search_from : (ℕ → Bool) → ℕ → ℕ → ℕ → Option ℕ
search_from test zero i j = none
search_from test (suc fuel) i j =
    let right = search_from test fuel ((i + j) / 2 + 1) j in
    let left = search_from test fuel i ((i + j) / 2) in
    let next = if test ((i + j) / 2) then left else right in if ltb i j then next else some i

-- With fuel for one round for each index.
unfoldable pub search : ℕ → (ℕ → Bool) → Option ℕ
search n test = search_from test (suc n) 0 n

abbrev pub get_elem? {ℓ} : {A : Type ℓ} → List A → ℕ → Option A
get_elem? [] i = none
get_elem? (x ∷ xs) zero = some x
get_elem? (x ∷ xs) (suc i) = get_elem? xs i

abbrev pub keys_of : Dict ℕ String → List ℕ
keys_of [] = []
keys_of ((k, n) ∷ r) = k ∷ keys_of r

unfoldable pub sort_keys : List ℕ → List ℕ
sort_keys = sort_by ltb

-- `sortedKeys[i] >= hash`; the test is asked at indices in range only.
unfoldable pub key_test : List ℕ → ℕ → ℕ → Bool
key_test keys hash i = elim (get_elem? keys i) [ none ↦ false | some k ↦ leb hash k ]

-- `ring[sortedKeys[idx]]`: a missing key gives the empty string.
unfoldable pub node_at : Dict ℕ String → Option ℕ → Ends String
node_at ring none = panics
node_at ring (some k) = elim (lookup k ring) [ none ↦ returns "" | some n ↦ returns n ]

unfoldable pub wrap_index : ℕ → ℕ → ℕ
wrap_index n idx = if idx == n then 0 else idx

abbrev pub node_found : Dict ℕ String → List ℕ → Option ℕ → Ends String
node_found ring keys none = panics
node_found ring keys (some idx) = node_at ring (get_elem? keys (wrap_index (length keys) idx))

-- `_, exists := b.nodes[nodeID]`
abbrev pub is_member : {F : Type 0} → String → Balancer F → Bool
is_member node b = is_some (lookup node b.nodes)

module _ {F : Type 0} (p : Platform F) where
  unfoldable pub new_balancer : BalanceConfig F → ℕ → Balancer F
  new_balancer config replicas = record {
    config = config;
    ring = [];
    sorted_keys = [];
    nodes = [];
    replicas = replicas;
    is_running = false;
    file_access = [];
  }

  unfoldable pub hash_key : String → ℕ
  hash_key key = p.checksum key

  -- The key of a virtual node.
  unfoldable pub virtual_key : String → ℕ → ℕ
  virtual_key node i = hash_key (String.◌++◌ node (p.itoa i))

  unfoldable pub idle_status : String → ShardStatus F
  idle_status node = record {
    node_id = node;
    shard_count = 0;
    disk_usage = p.zero_float;
    load_factor = p.zero_float;
    is_overloaded = false;
  }

  -- The loop that fills the ring, from index `i`, with the rounds that are left.
  unfoldable pub add_points : String → ℕ → ℕ → Dict ℕ String → Dict ℕ String
  add_points node i zero ring = ring
  add_points node i (suc n) ring = add_points node (i + 1) n (insert (virtual_key node i) node ring)

  -- The keys that the loop appends.
  unfoldable pub points : String → ℕ → ℕ → List ℕ
  points node i zero = []
  points node i (suc n) = virtual_key node i ∷ points node (i + 1) n

  unfoldable pub drop_points : String → ℕ → ℕ → Dict ℕ String → Dict ℕ String
  drop_points node i zero ring = ring
  drop_points node i (suc n) ring = drop_points node (i + 1) n (erase (virtual_key node i) ring)

  -- What `AddNode` does for a node that is new.
  unfoldable pub with_node : String → Balancer F → Balancer F
  with_node node b = record b {
    nodes = insert node (idle_status node) b.nodes;
    ring = add_points node 0 b.replicas b.ring;
    sorted_keys = sort_keys (b.sorted_keys ++ points node 0 b.replicas);
  }

  unfoldable pub add_node : String → Balancer F → Balancer F
  add_node node b = if is_member node b then b else with_node node b

  -- What `RemoveNode` does for a member: `for key := range b.ring` runs after its points are gone.
  unfoldable pub without_node : String → Balancer F → Balancer F
  without_node node b =
      let ring = drop_points node 0 b.replicas b.ring in
      record b { nodes = erase node b.nodes; ring = ring; sorted_keys = sort_keys (keys_of ring) }

  unfoldable pub remove_node : String → Balancer F → Balancer F
  remove_node node b = if is_member node b then without_node node b else b

  unfoldable pub get_node : String → Balancer F → Ends String
  get_node key b =
      if length b.ring == 0
      then fails ring_empty
      else node_found b.ring b.sorted_keys
          (search (length b.sorted_keys) (key_test b.sorted_keys (hash_key key)))

  -- The caller's status stands in place of the node's. Its pointer is kept; here it is copied.
  unfoldable pub update_node_status : String → ShardStatus F → Balancer F → Balancer F
  update_node_status node status b =
      if is_member node b then record b { nodes = insert node status b.nodes } else b
