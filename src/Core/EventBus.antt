-- ===== src/Core/EventBus.antt =====
-- `EventBus` of src/core/event-bus.ts. The emitter of the library eventemitter3 and its listeners are
-- parameters, as is the arithmetic of the moving average. A middleware does not throw, and a listener
-- that calls the bus again is a later call. The clock and the identifiers are arguments.
pub mod Counts
pub mod DeadLetters
mod Tests
use sync_engine.Base.{
  ℕ, zero, ◌+◌, ◌==◌, String, Bool, true, false, Option, none, some, List, [], ◌∷◌, ◌++◌, ltb,
  length, shift, or_else, if◌then◌else◌,
}
use sync_engine.Base.Map
use sync_engine.Base.Map.{Map}
use sync_engine.Core.Value.{Fields}

pub record EventEnvelope (A : Type 0) : Type 0 where
  pub id : String
  pub event : String
  pub payload : A
  pub source : String
  pub timestamp : ℕ
  pub metadata : Option Fields

-- `emit` calls the listeners of an event; its flag is false if one of them throws. `blend` is
-- `avg * 0.9 + elapsed * 0.1`.
pub record Emitter (A H E T : Type 0) : Type 0 where
  pub no_listeners : E
  pub on : E → String → H → E
  pub once : E → String → H → E
  pub off : E → String → H → E
  pub emit : E → String → EventEnvelope A → E × Bool
  pub listener_count : E → String → ℕ
  pub remove_all_listeners : E → Option String → E
  pub no_time : T
  pub blend : T → ℕ → T

pub record EventStats (T : Type 0) : Type 0 where
  pub emitted : ℕ
  pub handled : ℕ
  pub errors : ℕ
  pub avg_handle_time : T

pub record EventBus (A E T : Type 0) : Type 0 where
  pub emitter : E
  pub stats : Map (EventStats T)
  pub middleware : List (EventEnvelope A → Option (EventEnvelope A))
  pub dead_letter_queue : List (EventEnvelope A)
  pub max_dead_letters : ℕ

module _ {A H E T : Type 0} (em : Emitter A H E T) where
  unfoldable pub create : ℕ → EventBus A E T
  create max = record {
    emitter = em.no_listeners;
    stats = [];
    middleware = [];
    dead_letter_queue = [];
    max_dead_letters = max;
  }

  abbrev pub add_middleware :
      EventBus A E T → (EventEnvelope A → Option (EventEnvelope A)) → EventBus A E T
  add_middleware s f = record s { middleware = s.middleware ++ f ∷ [] }

  abbrev pub on : EventBus A E T → String → H → EventBus A E T
  on s event handler = record s { emitter = em.on s.emitter event handler }

  abbrev pub once : EventBus A E T → String → H → EventBus A E T
  once s event handler = record s { emitter = em.once s.emitter event handler }

  abbrev pub off : EventBus A E T → String → H → EventBus A E T
  off s event handler = record s { emitter = em.off s.emitter event handler }

  -- The loop over the middleware: `none` if one of them drops the event.
  unfoldable pub passed :
      List (EventEnvelope A → Option (EventEnvelope A)) → EventEnvelope A → Option (EventEnvelope A)
  passed [] e = some e
  passed (f ∷ fs) e = elim (f e) [ none ↦ none | some e' ↦ passed fs e' ]

  abbrev pub no_stats : EventStats T
  no_stats = record { emitted = 0; handled = 0; errors = 0; avg_handle_time = em.no_time }

  -- `getOrCreateStats`
  abbrev pub stats_of : EventBus A E T → String → EventStats T
  stats_of s event = or_else (Map.get s.stats event) no_stats

  unfoldable pub add_to_dead_letter :
      ℕ → List (EventEnvelope A) → EventEnvelope A → List (EventEnvelope A)
  add_to_dead_letter max q e =
      let longer = q ++ e ∷ [] in if ltb max (length longer) then shift longer else longer

  abbrev pub with_stats : EventBus A E T → String → EventStats T → EventBus A E T
  with_stats s event t = record s { stats = Map.set s.stats event t }

  abbrev pub emitted_once : EventStats T → EventStats T
  emitted_once t = record t { emitted = t.emitted + 1 }

  -- The body of `emit` once the middleware has let the event pass. The last argument is the time that the
  -- listeners take.
  unfoldable pub deliver : EventBus A E T → String → EventEnvelope A → ℕ → EventBus A E T
  unfolding add_to_dead_letter
  deliver s event e elapsed =
      let t = emitted_once (stats_of s event) in
      let letters = add_to_dead_letter s.max_dead_letters s.dead_letter_queue e in
      let (emitter, fine) = em.emit s.emitter event e in
      if em.listener_count s.emitter event == 0
      then record (with_stats s event t) { dead_letter_queue = letters }
      else (if fine
          then record (with_stats s event (record t {
            handled = t.handled + 1;
            avg_handle_time = em.blend t.avg_handle_time elapsed;
          })) { emitter = emitter }
          else record (with_stats s event (record t { errors = t.errors + 1 })) {
            emitter = emitter;
            dead_letter_queue = letters;
          })

  abbrev pub envelope_of : String → String → A → String → ℕ → Option Fields → EventEnvelope A
  envelope_of id event payload source now metadata = record {
    id = id;
    event = event;
    payload = payload;
    source = source;
    timestamp = now;
    metadata = metadata;
  }

  unfoldable pub emit :
      EventBus A E T → String → A → String → Option Fields → String → ℕ → ℕ → EventBus A E T
  unfolding passed deliver
  emit s event payload source metadata id now elapsed =
      elim (passed s.middleware (envelope_of id event payload source now metadata)) [
        | none ↦ s
        | some e ↦ deliver s event e elapsed
      ]

  -- The flag is false if a listener throws, which `emitSync` does not catch.
  unfoldable pub emit_sync :
      EventBus A E T → String → A → String → String → ℕ → EventBus A E T × Bool
  emit_sync s event payload source id now =
      let (emitter, fine) =
        em.emit s.emitter event (envelope_of id event payload source now none) in
      (record s { emitter = emitter }, fine)

  abbrev pub get_stats : EventBus A E T → Map (EventStats T)
  get_stats s = s.stats

  abbrev pub get_dead_letters : EventBus A E T → List (EventEnvelope A)
  get_dead_letters s = s.dead_letter_queue

  abbrev pub clear_dead_letters : EventBus A E T → EventBus A E T
  clear_dead_letters s = record s { dead_letter_queue = [] }

  abbrev pub listener_count : EventBus A E T → String → ℕ
  listener_count s event = em.listener_count s.emitter event

  abbrev pub remove_all_listeners : EventBus A E T → Option String → EventBus A E T
  remove_all_listeners s event = record s { emitter = em.remove_all_listeners s.emitter event }

  unfoldable pub destroy : EventBus A E T → EventBus A E T
  destroy s = record s {
    emitter = em.remove_all_listeners s.emitter none;
    stats = [];
    dead_letter_queue = [];
    middleware = [];
  }
