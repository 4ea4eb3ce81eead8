-- ===== src/LfQueue/Refusal.antt =====
-- When the bounded lock-free queue refuses a call.
