-- ===== src/Core.antt =====
-- src/core: the shared types, the state manager, the message broker and the event bus.
pub mod Value
pub mod Json
pub mod Types
pub mod StateManager
pub mod MessageBroker
pub mod EventBus
mod Tests
