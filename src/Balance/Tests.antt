-- ===== src/Balance/Tests.antt =====
-- The theorems on the balancer at concrete inputs.
use mathlib.Core.List.{Perm}
use astra_store_xion.Base.Sort.{sort_by, insert_by}
use astra_store_xion.Balance.Shards.{is_over, locked, check_and_balance}
use astra_store_xion.Balance.Deadlock.{check_and_balance_deadlocks}
use astra_store_xion.Balance.Hot.{get_hot_files, track_file_access}
use astra_store_xion.Balance.Hot.Top.{Selects, Falls, wanted, Tops, get_hot_files_top}
use astra_store_xion.Balance.Model.{HotFile, Guarded}
use astra_store_xion.Base.{
  List, All, ◌++◌, ◌≢◌, ℕ, ◌<◌, ◌≡◌, refl, String, true, false, some, [], ◌∷◌, arith, ltb, leb,
  str_eq, if◌then◌else◌, length, string_key, nat_key, ◌⊎◌, eq_iff,
}
use astra_store_xion.Base.Dict.{insert, lookup}
use astra_store_xion.Balance.Model.{
  ring_empty, fails, Platform, ShardStatus, BalanceConfig, Balancer, returns, blocks,
}
use astra_store_xion.Balance.Ring.{
  idle_status, wrap_index, node_at, key_test, points, sort_keys, search, virtual_key, add_points,
  with_node, search_from, get_node, new_balancer, add_node, remove_node, hash_key, is_member,
}
use astra_store_xion.Balance.Ring.Owner.{owner}
use astra_store_xion.Balance.Ring.Valid.{IsRing, new_balancer-IsRing, add_node-IsRing}
use astra_store_xion.Balance.Ring.Clockwise.{answer, get_node_clockwise}
use astra_store_xion.Balance.Ring.Moves.{
  collision_orphans, IsApart, add_node_moves, remove_node_keeps,
}
use astra_store_xion.Balance.Steps.{here, next, adds, tracks, Steps-get_node}

abbrev checksum_example : String → ℕ
checksum_example s =
    if str_eq s "a0" then 10 else if str_eq s "b0" then 20 else if str_eq s "c0" then 30 else 15

abbrev platform : Platform ℕ
platform = record {
  checksum = checksum_example;
  itoa = λ i. "0";
  above = λ x y. ltb y x;
  close = λ x y. leb x y;
  zero_float = 0;
}

abbrev config_example : BalanceConfig ℕ
config_example = record {
  check_interval = 1;
  disk_usage_threshold = 80;
  load_factor_threshold = 7;
  hot_file_threshold = 3;
  enable_auto_balance = true;
}

abbrev two_nodes : Balancer ℕ
two_nodes = add_node platform "b" (add_node platform "a" (new_balancer platform config_example 1))

two_nodes-IsRing : IsRing platform two_nodes
two_nodes-IsRing =
    add_node-IsRing platform "b" _
      (add_node-IsRing platform "a" _ (new_balancer-IsRing platform config_example 1))

get_node_runs : get_node platform "file" two_nodes ≡ returns "b"
unfolding get_node add_node lookup new_balancer with_node insert add_points virtual_key hash_key
    search search_from sort_keys sort_by points insert_by key_test node_at wrap_index idle_status
get_node_runs = refl

get_node_clockwise_example :
    get_node platform "file" two_nodes ≡ answer (owner (hash_key platform "file") two_nodes.ring)
get_node_clockwise_example = get_node_clockwise platform "file" two_nodes two_nodes-IsRing

add_node_moves_example :
    (get_node platform "file" (add_node platform "c" two_nodes)
      ≡ get_node platform "file" two_nodes)
    ⊎ (get_node platform "file" (add_node platform "c" two_nodes) ≡ returns "c")
add_node_moves_example = add_node_moves platform "file" "c" two_nodes two_nodes-IsRing

b_ne_a : ◌≢◌ {A = String} "b" "a"
b_ne_a e = ground (arith, eq_iff "b" "a", e)

apart : IsApart platform "a" two_nodes
unfolding add_node lookup new_balancer with_node insert add_points virtual_key hash_key points
apart k n at own = ground (arith, at, own)

two_points : 0 < length two_nodes.ring
unfolding add_node lookup new_balancer with_node insert add_points virtual_key hash_key
two_points = omega arith

remove_node_keeps_example :
    get_node platform "file" (remove_node platform "a" two_nodes) ≡ returns "b"
remove_node_keeps_example =
    remove_node_keeps platform "file" "a" "b" two_nodes two_nodes-IsRing apart b_ne_a get_node_runs

Steps-get_node_example :
    (n : String) × ((locked
        (λ k. (k, get_node platform "file" k.balancer))
        (record { balancer = two_nodes; held = false })).1
      ≡ returns n)
    × (is_member n two_nodes ≡ true)
Steps-get_node_example =
    Steps-get_node platform config_example 1 "file" (record { balancer = two_nodes; held = false })
      (next (next here (adds "a" refl)) (adds "b" refl)) refl two_points

abbrev busy : ShardStatus ℕ
busy = record {
  node_id = "a";
  shard_count = 0;
  disk_usage = 95;
  load_factor = 1;
  is_overloaded = false;
}

abbrev busy_balancer : Balancer ℕ
busy_balancer = record two_nodes { nodes = ("a", busy) ∷ [] }

busy_at : lookup "a" busy_balancer.nodes ≡ some busy
unfolding lookup
busy_at = refl

busy_over : is_over platform busy_balancer.config busy ≡ true
unfolding is_over new_balancer add_node lookup with_node insert
busy_over = refl

abbrev busy_guarded : Guarded ℕ
busy_guarded = record { balancer = busy_balancer; held = false }

-- A file is read after the check, and then a forced balance waits.
abbrev after_access : Guarded ℕ
after_access =
    let g = (check_and_balance platform busy_guarded).0 in
    record g { balancer = track_file_access 5 "f" g.balancer }

check_and_balance_deadlocks_example :
    ((check_and_balance platform busy_guarded).1 ≡ blocks)
    × (locked (λ g. (g, returns g.balancer.replicas)) after_access ≡ (after_access, blocks))
check_and_balance_deadlocks_example =
    check_and_balance_deadlocks platform "a" busy busy_guarded after_access
      (λ g. (g, returns g.balancer.replicas)) refl busy_at busy_over (next here (tracks 5 "f"))

-- The nodes "d" and "e" have one key.
abbrev orphaned : Balancer ℕ
orphaned =
    remove_node platform "e"
      (add_node platform "e" (add_node platform "d" (new_balancer platform config_example 1)))

same_key : virtual_key platform "d" 0 ≡ virtual_key platform "e" 0
unfolding virtual_key hash_key
same_key = refl

d_ne_e : ◌≢◌ {A = String} "d" "e"
d_ne_e e = ground (arith, eq_iff "d" "e", e)

collision_orphans_example :
    (get_node platform "file" orphaned ≡ fails ring_empty) × (is_member "d" orphaned ≡ true)
collision_orphans_example = collision_orphans platform config_example "d" "e" "file" same_key d_ne_e

abbrev read_often : Balancer ℕ
read_often = record two_nodes {
  file_access =
      ("x", record { accesses = 4; accessed_at = 1 })
      ∷ ("y", record { accesses = 9; accessed_at = 2 })
      ∷ ("z", record { accesses = 1; accessed_at = 3 })
      ∷ [];
}

get_hot_files_top_example :
    (hot out : List HotFile) × Selects read_often.config.hot_file_threshold read_often.file_access
      hot
    × Perm (get_hot_files 1 read_often ++ out) hot
    × Falls (get_hot_files 1 read_often)
    × All (Tops (get_hot_files 1 read_often)) out
    × ((out ≡ []) ⊎ (length (get_hot_files 1 read_often) ≡ wanted 1))
get_hot_files_top_example = get_hot_files_top 1 read_often
