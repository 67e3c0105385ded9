-- ===== src/Ws/Examples.antt =====
-- The websocket transport at concrete inputs.
