-- ===== src/Origin/Memory/Limit.antt =====
-- `MemoryOrigin::write` with the limit of an allocation, beside `write` without it.
