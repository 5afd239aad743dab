-- ===== src/Core/EventBus/Tests.antt =====
-- Runs of src/core/event-bus.ts, over an emitter that counts its listeners.
use sync_engine.Base.{
  ℕ, ◌+◌, ◌-◌, ◌≡◌, refl, String, none, some, List, [], ◌∷◌, not, str_eq, if◌then◌else◌,
}
use sync_engine.Base.Map
use sync_engine.Core.EventBus
use sync_engine.Core.EventBus.{
  EventBus, EventEnvelope, Emitter, create, emit, passed, deliver, add_to_dead_letter,
}
use sync_engine.Core.EventBus.Counts
use sync_engine.Core.EventBus.Counts.{
  Call, IsCounted, uses, listens, emits, emits_sync, clears_dead_letters, calls, calls-IsCounted,
}
use sync_engine.Core.EventBus.DeadLetters.{
  Emission, emit_all, last_of, all_undelivered, emit_all-last_of,
}

-- A listener throws at the event "bad".
abbrev emitter : Emitter ℕ String ℕ ℕ
emitter = record {
  no_listeners = 0;
  on = λ e event h. e + 1;
  once = λ e event h. e + 1;
  off = λ e event h. e - 1;
  emit = λ e event x. (e, not (str_eq event "bad"));
  listener_count = λ e event. e;
  remove_all_listeners = λ e event. 0;
  no_time = 0;
  blend = λ average elapsed. average + elapsed;
}

abbrev some_calls : List (Call ℕ String)
some_calls =
    emits "a" 1 "x" none "1" 5 0
    ∷ listens "a" "h"
    ∷ uses (λ e. if str_eq e.event "dropped" then none else some e)
    ∷ emits "a" 2 "x" none "2" 6 3
    ∷ emits "bad" 3 "x" none "3" 7 1
    ∷ emits "dropped" 4 "x" none "4" 8 1
    ∷ emits_sync "a" 5 "x" "5" 9
    ∷ []

calls-IsCounted_example : IsCounted emitter (calls emitter (create emitter 1) some_calls)
calls-IsCounted_example = calls-IsCounted emitter 1 some_calls

abbrev letter : String → String → ℕ → EventEnvelope ℕ
letter event id now = record {
  id = id;
  event = event;
  payload = 0;
  source = "x";
  timestamp = now;
  metadata = none;
}

-- The queue has room for one: the letter of the emission without a listener is gone.
last_letter :
    (calls emitter (create emitter 1) some_calls).dead_letter_queue
    ≡ record (letter "bad" "3" 7) { payload = 3 } ∷ []
unfolding calls Counts.call create emit passed deliver add_to_dead_letter EventBus.emit_sync Map.get
    Map.set
last_letter = refl

abbrev emission : String → String → ℕ → Emission emitter
emission event id now = record {
  event = event;
  payload = 0;
  source = "x";
  metadata = none;
  id = id;
  now = now;
  elapsed = 1;
}

abbrev emissions : List (Emission emitter)
emissions =
    emission "bad" "1" 5 ∷ emission "good" "2" 6 ∷ emission "bad" "3" 7 ∷ emission "bad" "4" 8 ∷ []

abbrev listening : EventBus ℕ ℕ ℕ
listening = EventBus.on emitter (create emitter 2) "good" "h"

no_letters : listening.dead_letter_queue ≡ []
unfolding create
no_letters = refl

emit_all-last_of_example :
    (emit_all emitter listening emissions).dead_letter_queue
    ≡ last_of listening.max_dead_letters (all_undelivered emitter listening emissions)
emit_all-last_of_example = emit_all-last_of emitter listening emissions no_letters
