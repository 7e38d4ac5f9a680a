-- ===== src/Steps/Common.antt =====
-- What the steps share: the type assertions on the state bag, and the ways to halt.
pub mod Laws
use packer_plugin_cloud_hype.Prelude.{Option, none, some, if◌then◌else◌}
use packer_plugin_cloud_hype.Runtime.{
  Error, new, failure, Client, is_ui, as_client, Platform, ui_error, StepAction, halt, M, pure,
  ◌>>=◌, ◌>>◌, emit, get, put,
}

module _ ⦃P : Platform⦄ where
  -- Without a ui the error is only stored.
  abbrev pub no_ui : M StepAction
  no_ui = do put "error" (failure (new "failed to get ui from state bag")); pure halt

  -- The error is stored and shown, and the build halts.
  abbrev pub fail : Error → M StepAction
  fail e = do put "error" (failure e); emit (ui_error e); pure halt

  abbrev pub with_ui : M StepAction → M StepAction
  with_ui body = do raw ← get "ui"; if is_ui raw then body else no_ui

  abbrev pub client_or_fail : Option Client → (Client → M StepAction) → M StepAction
  client_or_fail none body = fail (new "failed to get ch_client from state bag")
  client_or_fail (some c) body = body c

  -- The beginning of three steps: the ui, then the client.
  abbrev pub with_client : (Client → M StepAction) → M StepAction
  with_client body = with_ui (do raw ← get "ch_client"; client_or_fail (as_client raw) body)
