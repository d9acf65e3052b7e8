-- ===== src/Quality.antt =====
-- packages/quality/src: the tiers of video quality and the controller that walks them.
pub mod Tiers
pub mod Controller
