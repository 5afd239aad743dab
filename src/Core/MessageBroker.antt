-- ===== src/Core/MessageBroker.antt =====
-- `MessageBroker` of src/core/message-broker.ts. Identifiers and the clock are arguments. A handler
-- and a filter are functions of the subscriber: `none` says that the call throws. The calls that a
-- publication makes are part of its result. A handler that calls the broker again, or a call
-- that runs while `publish` awaits a handler, is not modelled here.
pub mod State
pub mod Publish
pub mod Delivery
pub mod Channels
pub mod Recent
