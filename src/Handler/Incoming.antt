-- ===== src/Handler/Incoming.antt =====
-- src/handler.rs, `incoming`: the deliveries of the broker go to the clusters. A cluster is what
-- `twilight_gateway` makes of it; the handler asks it for a shard and gives it a message.
pub mod Routing
use twilight_dispatch.Prelude.{
  ℕ, Bool, true, false, Option, none, some, is_some, List, [], ◌∷◌, ◌++◌, if◌then◌else◌,
}
use twilight_dispatch.Prelude.Text.{Text, lit}
use twilight_dispatch.Constants.{Display}
use twilight_dispatch.Models.{
  Value, Fault, Result, ok, err, Codec, DeliveryInfo, DeliveryOpcode, send, reconnect,
}
use twilight_dispatch.Handler.{
  Warning, consume_channel_failed, send_failed, deserialize_failed, consume_failed, invalid_shard,
}

pub record Delivery : Type 0 where
  pub delivery_tag : ℕ
  pub bytes : Text

-- What the handler does to the broker and to the clusters.
pub data Command (C : Type 0) : Type 0 where
  ack : ℕ → Command C
  send_to : C → ℕ → Text → Command C
  shutdown : C → ℕ → Command C
  info : Text → Command C
  warn : Warning → Command C

-- The clusters and the serialisation: which shards a cluster has, the outcome of its `send`, the
-- format of a delivery and of a value, and the value and the bytes that stand in for missing ones.
pub record Gateway (C : Type 0) : Type 0 where
  pub shard : C → ℕ → Bool
  pub send : C → ℕ → Text → Result Fault (Unit {0})
  pub deliveries : Codec DeliveryInfo
  pub values : Codec Value
  pub default_value : Value
  pub display : Display

module _ {C : Type 0} (g : Gateway C) where
  open g use {shard, deliveries, values, default_value, display}

  -- `clusters.iter().find(|cluster| cluster.shard(shard).is_some())`
  unfoldable pub find_cluster : List C → ℕ → Option C
  find_cluster [] n = none
  find_cluster (c ∷ cs) n = let rest = find_cluster cs n in if shard c n then some c else rest

  abbrev pub value_or_default : Option Value → Value
  value_or_default none = default_value
  value_or_default (some value) = value

  -- `simd_json::to_vec(..).unwrap_or_default()`
  abbrev pub bytes_or_empty : Result Fault Text → Text
  bytes_or_empty (ok bytes) = bytes
  bytes_or_empty (err e) = []

  abbrev pub send_warning : Result Fault (Unit {0}) → List (Command C)
  send_warning (ok _) = []
  send_warning (err e) = warn (send_failed e) ∷ []

  -- The `match` on the opcode; `none` stands for the panic of `cluster.shard(..).unwrap()`.
  unfoldable pub obey : C → DeliveryOpcode → ℕ → Option Value → Option (List (Command C))
  obey c DeliveryOpcode.send n value =
      let bytes : Text = bytes_or_empty (values.to_string (value_or_default value)) in
      some (send_to c n bytes ∷ send_warning (g.send c n bytes))
  obey c reconnect n value =
      let line : Command C = info (lit "Shutting down shard " ++ display.show n) in
      if shard c n then some (line ∷ shutdown c n ∷ []) else none

  unfoldable pub dispatch : Option C → DeliveryInfo → Option (List (Command C))
  unfolding obey
  dispatch none payload = some (warn (invalid_shard payload.shard) ∷ [])
  dispatch (some c) payload = obey c payload.op payload.shard payload.payload

  unfoldable pub read_delivery : List C → Result Fault DeliveryInfo → Option (List (Command C))
  unfolding find_cluster dispatch
  read_delivery clusters (ok payload) = dispatch (find_cluster clusters payload.shard) payload
  read_delivery clusters (err e) = some (warn (deserialize_failed e) ∷ [])

  abbrev pub prepend : List (Command C) → Option (List (Command C)) → Option (List (Command C))
  prepend xs none = none
  prepend xs (some ys) = some (xs ++ ys)

  abbrev pub and_then_all :
      Option (List (Command C)) → Option (List (Command C)) → Option (List (Command C))
  and_then_all none rest = none
  and_then_all (some xs) rest = prepend xs rest

  -- One round of the loop.
  unfoldable pub on_message : List C → Result Fault Delivery → Option (List (Command C))
  unfolding read_delivery
  on_message clusters (ok delivery) =
      prepend (ack delivery.delivery_tag ∷ [])
        (read_delivery clusters (deliveries.from_str delivery.bytes))
  on_message clusters (err e) = some (warn (consume_failed e) ∷ [])

  -- The loop, over all that the consumer yields.
  unfoldable pub consume : List C → List (Result Fault Delivery) → Option (List (Command C))
  unfolding on_message
  consume clusters [] = some []
  consume clusters (m ∷ ms) = and_then_all (on_message clusters m) (consume clusters ms)

  unfoldable pub incoming :
      List C → Result Fault (List (Result Fault Delivery)) → Option (List (Command C))
  unfolding consume
  incoming clusters (ok messages) = consume clusters messages
  incoming clusters (err e) = some (warn (consume_channel_failed e) ∷ [])
