-- ===== src/Core/MessageBroker/State.antt =====
-- The state of `MessageBroker` of src/core/message-broker.ts, its subscriptions and its views.
use sync_engine.Base.{
  ℕ, String, Bool, Option, none, some, List, [], ◌∷◌, ◌++◌, length, str_eq, if◌then◌else◌, or_else,
}
use sync_engine.Base.Map
use sync_engine.Base.Map.{Map}
use sync_engine.Utils.RingBuffer
use sync_engine.Utils.RingBuffer.{RingBuffer}
use sync_engine.Core.Types.{SyncMessage}

pub record Subscription {ℓ} (A : Type ℓ) : Type ℓ where
  pub id : String
  pub channel : String
  pub handler : SyncMessage A → Option (Unit {0})
  pub filter : Option (SyncMessage A → Option Bool)

pub record ChannelStats : Type 0 where
  pub delivered : ℕ
  pub dropped : ℕ
  pub created_at : ℕ

pub record MessageBroker {ℓ} (A : Type ℓ) : Type ℓ where
  pub channels : Map (List (Subscription A))
  pub channel_stats : Map ChannelStats
  pub message_buffer : RingBuffer (SyncMessage A)
  pub sequence_counters : Map ℕ
  pub node_id : String

pub record ChannelInfo : Type 0 where
  pub id : String
  pub subscriber_count : ℕ
  pub messages_delivered : ℕ
  pub messages_dropped : ℕ
  pub created_at : ℕ

module _ {ℓ} {A : Type ℓ} where
  unfoldable pub create : String → ℕ → MessageBroker A
  create node_id buffer_size = record {
    channels = [];
    channel_stats = [];
    message_buffer = RingBuffer.create buffer_size;
    sequence_counters = [];
    node_id = node_id;
  }

  abbrev pub subscribers : MessageBroker A → String → List (Subscription A)
  subscribers b channel = or_else (Map.get b.channels channel) []

  -- The identifier of the subscription is fresh, so adding it to the set puts it last.
  unfoldable pub subscribe : MessageBroker A → Subscription A → ℕ → MessageBroker A
  subscribe b sub now = elim (Map.get b.channels sub.channel) [
    | none ↦ record b {
      channels = Map.set b.channels sub.channel (sub ∷ []);
      channel_stats =
          Map.set b.channel_stats sub.channel
            (record { delivered = 0; dropped = 0; created_at = now });
    }
    | some subs ↦ record b { channels = Map.set b.channels sub.channel (subs ++ sub ∷ []) }
  ]

  -- `channelSubs.delete(subscription)`
  unfoldable pub without : String → List (Subscription A) → List (Subscription A)
  without id [] = []
  without id (s ∷ subs) = let rest = without id subs in if str_eq s.id id then rest else s ∷ rest

  unfoldable pub unsubscribe : MessageBroker A → Subscription A → MessageBroker A
  unsubscribe b sub = elim (Map.get b.channels sub.channel) [
    | none ↦ b
    | some subs ↦ elim (without sub.id subs) [
      | [] ↦ record b {
        channels = Map.delete b.channels sub.channel;
        channel_stats = Map.delete b.channel_stats sub.channel;
      }
      | s ∷ rest ↦ record b { channels = Map.set b.channels sub.channel (s ∷ rest) }
    ]
  ]

  unfoldable pub channel_info_of : Map ChannelStats → Map (List (Subscription A)) → List ChannelInfo
  channel_info_of stats [] = []
  channel_info_of stats ((id, subs) ∷ rest) =
      elim (Map.get stats id) [
        | none ↦ record {
          id = id;
          subscriber_count = length subs;
          messages_delivered = 0;
          messages_dropped = 0;
          created_at = 0;
        }
        | some s ↦ record {
          id = id;
          subscriber_count = length subs;
          messages_delivered = s.delivered;
          messages_dropped = s.dropped;
          created_at = s.created_at;
        }
      ]
      ∷ channel_info_of stats rest

  unfoldable pub get_channel_info : MessageBroker A → List ChannelInfo
  unfolding channel_info_of
  get_channel_info b = channel_info_of b.channel_stats b.channels

  abbrev pub has_channel : MessageBroker A → String → Bool
  has_channel b channel = Map.has b.channels channel

  abbrev pub subscriber_count : MessageBroker A → String → ℕ
  subscriber_count b channel = length (subscribers b channel)

  unfoldable pub destroy : MessageBroker A → MessageBroker A
  destroy b = record b {
    channels = [];
    channel_stats = [];
    sequence_counters = [];
    message_buffer = RingBuffer.clear b.message_buffer;
  }
