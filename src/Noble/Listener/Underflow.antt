-- ===== src/Noble/Listener/Underflow.antt =====
-- StartListener of noble/listener.go with a first block below the lookback period.
