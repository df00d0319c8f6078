-- ===== src/Shellq/Samples.antt =====
-- A command line with an apostrophe and a semicolon.
