-- ===== src/Wire/Progress.antt =====
-- A blocking call: whether it has returned, or is still in its loop.
pub data Progress : Type 0 where
  returned waiting : Progress
