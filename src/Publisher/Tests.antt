-- ===== src/Publisher/Tests.antt =====
-- The theorem on the publisher's loop, on a line, an empty line and a last line.
