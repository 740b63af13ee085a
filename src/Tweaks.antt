-- ===== src/Tweaks.antt =====
-- The panel of tweaks of web/tweaks-panel.jsx.
pub mod Panel
pub mod Radio
pub mod Colours
