-- ===== src/Integrations/Proxy.antt =====
-- titoos/integrations/base.py: `IntegrationProxy`, the handle that `Context.integration` gives. The
-- proxy has the integration and nothing else.
use tito_os.Prelude.{String, not, if◌then◌else◌, elem}
use tito_os.Errors.{Result, err, Error, not_advertised, not_writable}
use tito_os.Message.{Value}
use tito_os.Integrations.{Integration, call}

module _ {D : Type 0} where
  -- `IntegrationProxy.call`
  unfoldable pub proxy_call :
      (D → String → Value → Result Value × D)
      → Integration D
      → String
      → Value
      → Result Value × Integration D
  proxy_call = call

  -- `IntegrationProxy.__getattr__`, which Python calls for an attribute that the class does not have (it
  -- has `name`, `operations` and `call`), and then a call of the method that it gave.
  unfoldable pub proxy_attribute :
      (D → String → Value → Result Value × D)
      → Integration D
      → String
      → Value
      → Result Value × Integration D
  unfolding call
  proxy_attribute perform i attribute arguments =
      if not (elem attribute i.operations)
      then (err (not_advertised i.name attribute), i)
      else call perform i attribute arguments

  -- `IntegrationProxy.__setattr__`
  unfoldable pub proxy_set : Integration D → String → Value → Error
  proxy_set i attribute v = not_writable i.name
