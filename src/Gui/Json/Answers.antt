-- ===== src/Gui/Json/Answers.antt =====
-- titoos/gui/server.py: of what the answers of the API are made.
use tito_os.Message.{Message}
