-- ===== src/Shop/Failures/Bounds.antt =====
-- How often, and when, a failed delivery is tried again.
