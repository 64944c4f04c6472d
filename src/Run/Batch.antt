-- ===== src/Run/Batch.antt =====
-- What a node that goes to a module child ends with: `_module_child_run` of engine.py.
