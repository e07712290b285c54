-- ===== src/Integrations/Shell/Outcomes.antt =====
-- What `run` of titoos/integrations/shell.py answers, and what it leaves behind.
use tito_os.Dict.{Dict}
use tito_os.Integrations.Shell.{Shell}
