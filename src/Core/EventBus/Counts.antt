-- ===== src/Core/EventBus/Counts.antt =====
-- What the statistics and the queue of src/core/event-bus.ts satisfy in every state.
use sync_engine.Base.{
  ℕ, ◌+◌, ◌≤◌, ◌≡◌, refl, sym, ◌∙◌, inl, inr, String, Option, none, some, List, [], ◌∷◌, ◌++◌,
  arith, ◌==◌, length, length-append, length-shift, subst, str_eq, Option-cases, Bool-cases,
}
use sync_engine.Base.Map
use sync_engine.Base.Map.{Map}
use sync_engine.Base.Map.Laws.{get-set}
use sync_engine.Core.Value.{Fields}
use sync_engine.Core.EventBus
use sync_engine.Core.EventBus.{
  EventBus, EventEnvelope, EventStats, Emitter, create, passed, no_stats, stats_of,
  add_to_dead_letter, with_stats, emitted_once, deliver, emit, emit_sync, destroy, add_middleware,
  clear_dead_letters, remove_all_listeners, envelope_of,
}

-- The calls of a bus. An emission has its event, payload, source, metadata, identifier, time and the time that
-- its listeners take.
pub data Call (A H : Type 0) : Type 0 where
  uses : (EventEnvelope A → Option (EventEnvelope A)) → Call A H
  listens listens_once stops_listening : String → H → Call A H
  emits : String → A → String → Option Fields → String → ℕ → ℕ → Call A H
  emits_sync : String → A → String → String → ℕ → Call A H
  clears_dead_letters : Call A H
  removes_listeners : Option String → Call A H
  destroys : Call A H

module _ {A H E T : Type 0} (em : Emitter A H E T) where
  unfoldable pub call : EventBus A E T → Call A H → EventBus A E T
  call s (uses f) = add_middleware em s f
  call s (listens event h) = EventBus.on em s event h
  call s (listens_once event h) = EventBus.once em s event h
  call s (stops_listening event h) = EventBus.off em s event h
  call s (emits event payload source metadata id now elapsed) =
      emit em s event payload source metadata id now elapsed
  call s (emits_sync event payload source id now) = (emit_sync em s event payload source id now).0
  call s clears_dead_letters = clear_dead_letters em s
  call s (removes_listeners event) = remove_all_listeners em s event
  call s destroys = destroy em s

  unfoldable pub calls : EventBus A E T → List (Call A H) → EventBus A E T
  unfolding call
  calls s [] = s
  calls s (c ∷ cs) = calls (call s c) cs

  -- No event is handled or fails more often than it is emitted, and the queue is not too long.
  pub record IsCounted (s : EventBus A E T) : Type 0 where
    pub counted :
        (event : String) (t : EventStats T)
        → Map.get s.stats event ≡ some t
        → t.handled + t.errors ≤ t.emitted
    pub bounded : length s.dead_letter_queue ≤ s.max_dead_letters

  length-add_to_dead_letter :
      (max : ℕ) (q : List (EventEnvelope A)) (e : EventEnvelope A)
      → length q ≤ max
      → length (add_to_dead_letter em max q e) ≤ max
  unfolding add_to_dead_letter
  length-add_to_dead_letter max q e le =
      ground (arith, le, length-append q (e ∷ []), length-shift (q ++ e ∷ []))

  stats_of-counted :
      (s : EventBus A E T) (event : String)
      → IsCounted s
      → (stats_of em s event).handled + (stats_of em s event).errors ≤ (stats_of em s event).emitted
  stats_of-counted s event v = elim (Option-cases (Map.get s.stats event)) [
    | inl e ↦ rw e (omega arith)
    | inr (t, e) ↦ rw e (v.counted event t e)
  ]

  abbrev Fits : Option (EventStats T) → Type 0
  Fits none = Unit
  Fits (some t) = t.handled + t.errors ≤ t.emitted

  set-counted :
      (s : EventBus A E T) (event : String) (t : EventStats T)
      → IsCounted s
      → t.handled + t.errors ≤ t.emitted
      → (k : String) (u : EventStats T) → Map.get (Map.set s.stats event t) k ≡ some u
      → u.handled + u.errors ≤ u.emitted
  set-counted s event t v le k u e = elim (Bool-cases (str_eq event k)) [
    | inl b ↦
        let same : some t ≡ some u = sym (get-set s.stats event k t ∙ rw b refl) ∙ e in
        subst Fits same le
    | inr b ↦ v.counted k u (sym (get-set s.stats event k t ∙ rw b refl) ∙ e)
  ]

  deliver-IsCounted :
      (s : EventBus A E T) (event : String) (e : EventEnvelope A) (elapsed : ℕ)
      → IsCounted s
      → IsCounted (deliver em s event e elapsed)
  unfolding deliver
  deliver-IsCounted s event e elapsed v =
      let t = emitted_once em (stats_of em s event) in
      let le = stats_of-counted s event v in
      let letters = length-add_to_dead_letter s.max_dead_letters s.dead_letter_queue e v.bounded in
      elim (Bool-cases (em.listener_count s.emitter event == 0)) [
        | inl n ↦
            rw (n, deliver)
              (record { counted = set-counted s event t v (omega (arith, le)); bounded = letters })
        | inr n ↦ elim (Bool-cases (em.emit s.emitter event e).1) [
          | inl f ↦
              rw (n, deliver, f)
                (record {
                  counted =
                      set-counted s event
                        (record t {
                          handled = t.handled + 1;
                          avg_handle_time = em.blend t.avg_handle_time elapsed;
                        })
                        v (omega (arith, le));
                  bounded = v.bounded;
                })
          | inr f ↦
              rw (n, deliver, f)
                (record {
                  counted =
                      set-counted s event (record t { errors = t.errors + 1 }) v
                        (omega (arith, le));
                  bounded = letters;
                })
        ]
      ]

  emit-IsCounted :
      (s : EventBus A E T) (event : String) (payload : A) (source : String)
      (metadata : Option Fields) (id : String) (now elapsed : ℕ)
      → IsCounted s
      → IsCounted (emit em s event payload source metadata id now elapsed)
  unfolding emit
  emit-IsCounted s event payload source metadata id now elapsed v =
      elim (Option-cases
        (passed em s.middleware (envelope_of em id event payload source now metadata))) [
          | inl e ↦ rw (e, emit) v
          | inr (x, e) ↦ rw (e, emit) (deliver-IsCounted s event x elapsed v)
        ]

  call-IsCounted : (s : EventBus A E T) (c : Call A H) → IsCounted s → IsCounted (call s c)
  unfolding call emit_sync destroy Map.get
  call-IsCounted s (uses f) v = record { counted = v.counted; bounded = v.bounded }
  call-IsCounted s (listens event h) v = record { counted = v.counted; bounded = v.bounded }
  call-IsCounted s (listens_once event h) v = record { counted = v.counted; bounded = v.bounded }
  call-IsCounted s (stops_listening event h) v = record { counted = v.counted; bounded = v.bounded }
  call-IsCounted s (emits event payload source metadata id now elapsed) v =
      emit-IsCounted s event payload source metadata id now elapsed v
  call-IsCounted s (emits_sync event payload source id now) v = record {
    counted = v.counted;
    bounded = v.bounded;
  }
  call-IsCounted s clears_dead_letters v = record { counted = v.counted; bounded = omega arith }
  call-IsCounted s (removes_listeners event) v = record { counted = v.counted; bounded = v.bounded }
  call-IsCounted s destroys v = record { counted = λ k t e. absurd (cc e); bounded = omega arith }

  calls_keep : (s : EventBus A E T) (cs : List (Call A H)) → IsCounted s → IsCounted (calls s cs)
  unfolding calls
  calls_keep s [] v = v
  calls_keep s (c ∷ cs) v = calls_keep (call s c) cs (call-IsCounted s c v)

  -- Whatever is called of a new bus, with any listeners and middleware: no event has been handled and has
  -- failed more often, taken together, than it was emitted, and the dead letters are within their bound.
  pub calls-IsCounted : (max : ℕ) (cs : List (Call A H)) → IsCounted (calls (create em max) cs)
  unfolding create Map.get
  calls-IsCounted max cs =
      calls_keep (create em max) cs
        (record { counted = λ k t e. absurd (cc e); bounded = omega arith })
