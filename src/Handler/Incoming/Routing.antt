-- ===== src/Handler/Incoming/Routing.antt =====
-- src/handler.rs, `incoming`: each delivery is acknowledged and reaches the cluster that has its shard.
use twilight_dispatch.Prelude.{
  ℕ, ◌≡◌, refl, sym, ◌∙◌, ◌⊎◌, inl, inr, not, ◌&&◌, select, is_some, map, Bool, true, false,
  Bool-cases, Option, none, some, List, [], ◌∷◌, ◌++◌, if◌then◌else◌, ltb, length, arith,
  append_assoc,
}
use twilight_dispatch.Prelude.Text.{lit}
use twilight_dispatch.Models.{Fault, Result, ok, err, DeliveryInfo, DeliveryOpcode, reconnect}
use twilight_dispatch.Config.{Config}
use twilight_dispatch.Cluster.{Range, cluster_ranges}
use twilight_dispatch.Cluster.Ranges.{IsValid, owners, owners-cluster_ranges}
use twilight_dispatch.Handler.{consume_failed}
use twilight_dispatch.Handler.Incoming.{
  Delivery, Command, ack, shutdown, info, warn, Gateway, find_cluster, obey, dispatch,
  read_delivery, on_message, consume, incoming, send_warning,
}

module _ {C : Type 0} (g : Gateway C) where
  -- The acknowledgements among the commands.
  abbrev acks_of_command : Command C → List ℕ
  acks_of_command (ack tag) = tag ∷ []
  acks_of_command _ = []

  abbrev pub acks : List (Command C) → List ℕ
  acks [] = []
  acks (x ∷ xs) = acks_of_command x ++ acks xs

  -- The tags of the deliveries that arrived.
  abbrev pub tags : List (Result Fault Delivery) → List ℕ
  tags [] = []
  tags (ok delivery ∷ ms) = delivery.delivery_tag ∷ tags ms
  tags (err e ∷ ms) = tags ms

  acks-append : (xs ys : List (Command C)) → acks (xs ++ ys) ≡ acks xs ++ acks ys
  acks-append [] ys = refl
  acks-append (x ∷ xs) ys =
      rw (acks-append xs ys) (sym (append_assoc (acks_of_command x) (acks xs) (acks ys)))

  -- The cluster that is found has the shard.
  find_cluster-found :
      (clusters : List C) (n : ℕ) (c : C) → find_cluster g clusters n ≡ some c → g.shard c n ≡ true
  unfolding find_cluster
  find_cluster-found [] n c e = cc
  find_cluster-found (d ∷ ds) n c e =
      found_first (Bool-cases (g.shard d n)) e (find_cluster-found ds n c)
    where
      found_first :
          (g.shard d n ≡ true) ⊎ (g.shard d n ≡ false)
          → (if g.shard d n then some d else find_cluster g ds n) ≡ some c
          → (find_cluster g ds n ≡ some c → g.shard c n ≡ true)
          → g.shard c n ≡ true
      found_first h e rest = ground arith

  quiet_warning : (r : Result Fault (Unit {0})) → acks (send_warning g r) ≡ []
  quiet_warning (ok _) = refl
  quiet_warning (err e) = refl

  -- The reading of a delivery ends, and acknowledges nothing more.
  read_delivery-ends :
      (clusters : List C) (r : Result Fault DeliveryInfo)
      → (xs : List (Command C)) × (read_delivery g clusters r ≡ some xs) × (acks xs ≡ [])
  unfolding read_delivery dispatch obey
  read_delivery-ends clusters (err e) = (_, refl, refl)
  read_delivery-ends clusters (ok payload) =
      ends (find_cluster g clusters payload.shard) payload.op
        (find_cluster-found clusters payload.shard)
    where
      ends :
          (found : Option C) (op : DeliveryOpcode)
          → ((c : C) → found ≡ some c → g.shard c payload.shard ≡ true)
          → (xs : List (Command C)) × (dispatch g found (record payload { op = op }) ≡ some xs)
            × (acks xs ≡ [])
      ends none op h = (_, refl, refl)
      ends (some c) DeliveryOpcode.send h = (_, refl, quiet_warning _)
      ends (some c) reconnect h = (
        info (lit "Shutting down shard " ++ g.display.show payload.shard)
            ∷ shutdown c payload.shard
            ∷ [],
        rw (h c refl) refl,
        refl,
      )

  consume-ends :
      (clusters : List C) (ms : List (Result Fault Delivery))
      → (xs : List (Command C)) × (consume g clusters ms ≡ some xs) × (acks xs ≡ tags ms)
  unfolding consume on_message
  consume-ends clusters [] = ([], refl, refl)
  consume-ends clusters (err e ∷ ms) =
      let (xs, same, h) = consume-ends clusters ms in
      (warn (consume_failed e) ∷ xs, rw same refl, h)
  consume-ends clusters (ok delivery ∷ ms) =
      let (xs, same, h) = consume-ends clusters ms in
      let (ys, read, quiet) = read_delivery-ends clusters (g.deliveries.from_str delivery.bytes) in
      (
        ack delivery.delivery_tag ∷ ys ++ xs,
        rw (read, same) refl,
        rw (acks-append ys xs, quiet, h) refl,
      )

  -- The tags of the deliveries of a consumer; there are none if the channel cannot be consumed.
  abbrev pub delivered : Result Fault (List (Result Fault Delivery)) → List ℕ
  delivered (ok ms) = tags ms
  delivered (err e) = []

  -- Whether the channel can be consumed or not, the handler does not panic, and it acknowledges every
  -- delivery once and in order, also a delivery that cannot be read, is for no shard of the service, or
  -- is refused by its cluster.
  pub incoming-acks :
      (clusters : List C) (consumer : Result Fault (List (Result Fault Delivery)))
      → (xs : List (Command C)) × (incoming g clusters consumer ≡ some xs)
        × (acks xs ≡ delivered consumer)
  unfolding incoming
  incoming-acks clusters (ok ms) = consume-ends clusters ms
  incoming-acks clusters (err e) = (_, refl, refl)

  -- The clusters of an option.
  abbrev pub to_list : Option C → List C
  to_list none = []
  to_list (some c) = c ∷ []

  head_of : List C → Option C
  head_of [] = none
  head_of (c ∷ cs) = some c

  find_cluster_lem :
      (clusters : List C) (n : ℕ)
      → find_cluster g clusters n ≡ head_of (select (λ c. g.shard c n) clusters)
  unfolding find_cluster select head_of
  find_cluster_lem [] n = refl
  find_cluster_lem (c ∷ cs) n = elim (Bool-cases (g.shard c n)) [
    | inl h ↦ rw h refl
    | inr h ↦ rw h (find_cluster_lem cs n)
  ]

  at_most_one :
      (cs : List C) (a b : Bool)
      → length cs ≡ (if a then 0 else if b then 0 else 1)
      → (cs ≡ to_list (head_of cs)) × (is_some (head_of cs) ≡ (not a && not b))
  unfolding head_of
  at_most_one [] a b h = (refl, ground arith)
  at_most_one (c ∷ []) a b h = (refl, ground arith)
  at_most_one (c ∷ d ∷ cs) a b h = absurd (ground arith)

  module _ (range_of : C → Range) where
    -- A cluster has the shards of its range.
    abbrev pub HasRange : Type 0
    HasRange =
        (c : C) (n : ℕ)
        → g.shard c n ≡ (not (ltb n (range_of c).from) && not (ltb (range_of c).to n))

    owners-select :
        (clusters : List C) (n : ℕ)
        → HasRange
        → length (select (λ c. g.shard c n) clusters) ≡ owners n (map range_of clusters)
    unfolding select
    owners-select [] n h = refl
    owners-select (c ∷ cs) n h = ground (arith, owners-select cs n h, h c n)

    -- With a valid configuration and a cluster for each of its ranges, a delivery finds a cluster if
    -- and only if its shard is the service's, and this cluster is the only one that has the shard.
    pub find_cluster-owners :
        (config : Config) (clusters : List C) (n : ℕ)
        → IsValid config
        → cluster_ranges config ≡ some (map range_of clusters)
        → HasRange
        → (select (λ c. g.shard c n) clusters ≡ to_list (find_cluster g clusters n))
          × (is_some (find_cluster g clusters n)
              ≡ (not (ltb n config.shards_start) && not (ltb config.shards_end n)))
    find_cluster-owners config clusters n v e h = rw (find_cluster_lem clusters n) (
        at_most_one (select (λ c. g.shard c n) clusters) (ltb n config.shards_start)
          (ltb config.shards_end n)
          (owners-select clusters n h ∙ owners-cluster_ranges config (map range_of clusters) n v e))
