-- ===== src/LuckyGift.antt =====
-- src/modules/luckyGift and src/routes/service/serviceLuckyGift.js: the local draw of lucky gifts, a send,
-- and the once-only banner.
pub mod Combo
pub mod Single
pub mod EmitDedupe
pub mod Send
