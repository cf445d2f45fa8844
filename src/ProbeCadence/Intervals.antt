-- ===== src/ProbeCadence/Intervals.antt =====
-- nabla/api/health_probe_cadence.py: the time between two questions to one provider.
