-- ===== src/Postgres/Sends/Idempotence.antt =====
-- A send is prepared, dispatched and answered once, however often its request is repeated.
