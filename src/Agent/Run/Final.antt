-- ===== src/Agent/Run/Final.antt =====
-- How a task ends whose steps all run: by the verdict of the last one.
use pre_code.Agent.World.{Run}
