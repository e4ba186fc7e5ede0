-- ===== src/Context/Examples.antt =====
-- Stop and Wait of stopper.go at concrete states.
