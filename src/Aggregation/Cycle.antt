-- ===== src/Aggregation/Cycle.antt =====
-- horovod/tensorflow/gradient_aggregation.py: a cycle of `backward_passes_per_step` steps.
use horovod.Common.{rank_key}
