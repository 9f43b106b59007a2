-- ===== src/Control.antt =====
-- pkg/control: authentication, the control messages and their frames.
pub mod Auth
pub mod Words
pub mod Messages
pub mod Stream
