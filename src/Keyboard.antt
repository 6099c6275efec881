-- ===== src/Keyboard.antt =====
-- statics/include/keyboard.js: from DOM key events to the key events of the RFB protocol.
pub mod Xk
pub mod Keysym
pub mod Event
pub mod Modifiers
pub mod Track
pub mod Escape
pub mod Verify
pub mod Decoder
pub mod Pipeline
