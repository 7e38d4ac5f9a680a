-- ===== src/Chclient/Api.antt =====
-- The requests of chclient/client.go: `doRequest` and the operations of `Client`.
pub mod Laws
use packer_plugin_cloud_hype.Prelude.{
  ℕ, String, Option, none, some, List, [], ◌∷◌, ◌++◌, Str, codes, leb, if◌then◌else◌,
}
use packer_plugin_cloud_hype.Runtime.{
  Error, http, call, reading, wrap, Result, ok, err, Client, Platform, Context, Request, Exchange,
  no_response, unread, response, M, pure, ◌>>=◌, ◌>>◌, exchange,
}
use packer_plugin_cloud_hype.Chclient.VmConfig.{VmConfig}
use packer_plugin_cloud_hype.Chclient.Encode.{to_json}

abbrev pub http_status_error : ℕ
http_status_error = 400

-- `strings.Join`
unfoldable pub join : Str → List Str → Str
join sep [] = []
join sep (s ∷ []) = s
join sep (s ∷ t ∷ rest) = s ++ (sep ++ join sep (t ∷ rest))

-- The text of a failed response: the messages of a JSON array of texts, or else the body.
unfoldable pub detail : Option (List Str) → Str → Str
detail none body = body
detail (some []) body = body
detail (some (m ∷ ms)) body = join (codes ", ") (m ∷ ms)

-- The error of a call that returns an error alone.
abbrev pub error_of : {A : Type 0} → Result A → Option Error
error_of (ok a) = none
error_of (err e) = some e

module _ ⦃P : Platform⦄ where
  -- `doRequest` after the exchange.
  unfoldable pub answer : String → String → Exchange → Result Str
  answer method path (no_response e) = err (call method path e)
  answer method path (unread e) = err (reading method path e)
  answer method path (response status body) =
      if leb http_status_error status
      then err (http status (detail (P.unmarshal body) body))
      else ok body

  unfoldable pub do_request :
      Client → Context → String → String → String → Option Str → M (Result Str)
  do_request c ctx method path content_type body = elim (P.new_request method path) [
    | some e ↦ pure (err (call method path e))
    | none ↦ do
      x ← exchange (record {
        context = ctx;
        socket = c.socket_path;
        method = method;
        path = path;
        content_type = content_type;
        body = body;
      })
      pure (answer method path x)
  ]

  -- An operation without a body.
  abbrev simple : Client → Context → String → String → M (Result Str)
  simple c ctx method path = do_request c ctx method path "" none

  unfoldable pub ping : Client → Context → M (Option Error)
  ping c ctx = do r ← simple c ctx "GET" "/api/v1/vmm.ping"; pure (error_of r)

  unfoldable pub create_vm : Client → Context → VmConfig → M (Option Error)
  create_vm c ctx config = elim (P.marshal (to_json config)) [
    | err e ↦ pure (some (wrap "vm.create: marshaling config" e))
    | ok body ↦ do
      r ← do_request c ctx "PUT" "/api/v1/vm.create" "application/json" (some body)
      pure (error_of r)
  ]

  unfoldable pub boot_vm : Client → Context → M (Option Error)
  boot_vm c ctx = do r ← simple c ctx "PUT" "/api/v1/vm.boot"; pure (error_of r)

  unfoldable pub shutdown_vm : Client → Context → M (Option Error)
  shutdown_vm c ctx = do r ← simple c ctx "PUT" "/api/v1/vm.shutdown"; pure (error_of r)

  unfoldable pub delete_vm : Client → Context → M (Option Error)
  delete_vm c ctx = do r ← simple c ctx "PUT" "/api/v1/vm.delete"; pure (error_of r)

  unfoldable pub vm_info : Client → Context → M (Result Str)
  vm_info c ctx = simple c ctx "GET" "/api/v1/vm.info"
