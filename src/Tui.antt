-- ===== src/Tui.antt =====
-- internal/tui: the parts of the terminal interface that keep a state of their own.
pub mod Dino
pub mod InputLine
