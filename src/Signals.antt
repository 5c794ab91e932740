-- ===== src/Signals.antt =====
-- app/agent_signals.py: the Agent Signal inbox. `Payload` is the contract of a signal, `Record` the
-- stored record and its transitions, `Backend` the objects in Cloud Storage and `Inbox` the
-- operations.
pub mod Payload
pub mod Record
pub mod Backend
pub mod Inbox
