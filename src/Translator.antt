-- ===== src/Translator.antt =====
-- The translator from SH-4 machine code (translator/).
pub mod Decoder
pub mod Constprop
pub mod Switch
mod Examples
