-- ===== src/Core/Tests.antt =====
-- Runs of `MessageBroker` of src/core/message-broker.ts.
use mathlib.Core.Option
use sync_engine.Base.{
  ℕ, ◌≡◌, ◌≢◌, leb, refl, String, Bool, Option, some, none, List, [], ◌∷◌, arith, All, str_eq,
  if◌then◌else◌, eq_iff,
}
use sync_engine.Base.Map
use sync_engine.Utils.RingBuffer
use sync_engine.Utils.RingBuffer.Refine.{Repr, create-Repr}
use sync_engine.Core.Types.{SyncMessage, event}
use sync_engine.Core.MessageBroker.State.{
  Subscription, MessageBroker, create, subscribers, subscribe,
}
use sync_engine.Core.MessageBroker.Publish.{publish, get_recent_messages, message_of}
use sync_engine.Core.MessageBroker.Delivery.{published, listed, called, counted, publish_effects}
use sync_engine.Core.MessageBroker.Publish
use sync_engine.Core.MessageBroker.Channels
use sync_engine.Core.MessageBroker.Channels.{
  IsValid, Call, subscribes, publishes, unsubscribes, run, run-IsValid, undelivered_uncounted,
  unsubscribe-subscribe,
}

-- A subscriber that takes every message, one that takes the numbers from 5 on, and one that throws.
abbrev taker : Subscription ℕ
taker = record { id = "s1"; channel = "c"; handler = λ m. some tt; filter = none }

abbrev at_least_5 : SyncMessage ℕ → Option Bool
at_least_5 m = some (leb 5 m.payload)

abbrev picky : Subscription ℕ
picky = record { id = "s2"; channel = "c"; handler = λ m. some tt; filter = some at_least_5 }

abbrev thrower : Subscription ℕ
thrower = record { id = "s3"; channel = "c"; handler = λ m. none; filter = none }

abbrev calls : List (Call ℕ)
calls =
    subscribes taker 1
    ∷ subscribes thrower 2
    ∷ subscribes picky 3
    ∷ publishes "c" event 7 none "m1" 4
    ∷ unsubscribes thrower
    ∷ []

-- After the calls, with room for two messages.
abbrev broker : MessageBroker ℕ
broker = run (create "n" 2) calls

publish_effects_example :
    let m = published broker "c" event 3 none "m2" 5 in
    let subs = listed broker "c" in
    let (b', called_ids, _) = publish broker "c" event 3 none "m2" 5 in
    (called_ids ≡ called m subs)
    × (Map.get b'.channel_stats "c"
        ≡ Option.map (counted m subs) (Map.get broker.channel_stats "c"))
    × ((j : String) → "c" ≢ j → Map.get b'.channel_stats j ≡ Map.get broker.channel_stats j)
    × ((j : String)
        → Map.get b'.sequence_counters j
          ≡ (if str_eq "c" j then some m.sequence else Map.get broker.sequence_counters j))
publish_effects_example = publish_effects broker "c" event 3 none "m2" 5

abbrev with_taker : MessageBroker ℕ
with_taker = run (create "n" 2) (subscribes taker 1 ∷ [])

picky_is_new : All (λ (x : Subscription ℕ). x.id ≢ "s2") (subscribers with_taker "c")
unfolding run Channels.step create subscribe Map.get Map.set
picky_is_new = (ground (arith, eq_iff "s1" "s2"), tt)

abbrev first : SyncMessage ℕ
first = message_of "n" "c" event 7 none "m1" 4 1

-- A buffer of one place, and the message that fills it.
abbrev small : MessageBroker ℕ
small = create "n" 1

abbrev filled : MessageBroker ℕ
filled = (publish small "c" event 7 none "m1" 4).0

small-Repr : Repr small.message_buffer []
unfolding create
small-Repr = create-Repr 1

filled-Repr : Repr filled.message_buffer (first ∷ [])
unfolding create publish Publish.next_sequence Publish.dispatch Publish.dispatch_to
    RingBuffer.create RingBuffer.push Map.get
filled-Repr = record {
  size = refl;
  count_eq = refl;
  fits = omega arith;
  head_in = omega arith;
  tail_eq = refl;
  holds = (refl, tt);
}

one_place : 1 ≡ filled.message_buffer.capacity
unfolding create publish Publish.next_sequence Publish.dispatch Publish.dispatch_to
    RingBuffer.create RingBuffer.push Map.get
one_place = refl
