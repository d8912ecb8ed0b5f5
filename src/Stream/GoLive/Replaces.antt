-- ===== src/Stream/GoLive/Replaces.antt =====
-- On src/routes/service/serviceLive.js. A start ends the stream that its host had.
