-- ===== src/Lib.antt =====
-- cloud-hypervisor: the Packer builder that boots a virtual machine under Cloud-Hypervisor,
-- provisions it and keeps its disks.
--
-- The program. `Builder.Run` (builder/cloud-hypervisor/builder.go) runs steps over a state bag, in
-- which they leave their results for one another: the launch starts the monitor and puts "ch_cmd"
-- and "ch_client" there, the creation and the boot send requests through the client, the SDK connects
-- and provisions, the shutdown asks the machine to end and polls until it is gone, and the last step
-- copies the writable disks and puts "artifact" there. A step that fails puts "error" there and
-- halts; the steps that ran are then cleaned up in the reverse order. `Prepare` checks the
-- configuration before all this, and `buildVMConfig` turns it into the request of the creation.
--
-- The files.
--   Prelude    shared names, texts as bytes, lists, and Go's 64-bit integers, which wrap.
--   Go         what the source uses of strings, path/filepath, net and reflect, on bytes.
--   Json       the values that json.Marshal is given.
--   Runtime    Host is the platform, a parameter: the system's calls, the clock, the context, the
--              server and the SDK's state bag, each answering from a state that is not seen. Effects
--              is the machine (state bag, log of events, files, platform) and its monad. FileCalls
--              has the calls of os and io on files, which may be refused at any time.
--   Chclient   builder/cloud-hypervisor/chclient/client.go: VmConfig its types, Encode their JSON by
--              the struct tags (Decode reads it back), Api `doRequest` (as do_request and answer) and
--              the operations.
--   Config     builder/cloud-hypervisor/config.go: Types its structs, Keys `collectKeys` and
--              `filterRaws`, Prepare `Prepare` with each check as a function (validate puts them in
--              their order), over a decoder that is a parameter. Hcl is
--              builder/cloud-hypervisor/config.hcl2spec.go: Fields the flat structs as tables of their
--              fields, Spec what their `HCL2Spec` return. Keys/Tags reads a tag off its text, and
--              Keys/Declared says by it which names a type declares; Keys/Filtered is what the filter
--              leaves.
--   Ssh        builder/cloud-hypervisor/ssh.go: `stripCIDR` and `CommHost`.
--   Artifact   builder/cloud-hypervisor/artifact.go: the methods of the artifact.
--   Steps      builder/cloud-hypervisor/step_*.go, one module for each step: its `Run` as <name>_run,
--              its `Cleanup` as <name>_cleanup, the two together as <name>_step. Common has the
--              beginning and the failures that the steps share, Keeps the keys they leave alone,
--              Sent the requests they send.
--   Builder    builder/cloud-hypervisor/builder.go: Modes the names of image types and consoles, Vm
--              `buildVMConfig`, Run `Run`. Runner is the SDK's runner as a relation that has every
--              interruption by a cancelled context, and Invariants a rule to reason about it. Prepare
--              has `ConfigSpec` and `Prepare`. Protocol is the abstract view of a build: the calls of
--              the API and the phases of one virtual machine, without the steps; Run/Phases and
--              Run/Refines relate the steps to it, Run/Bag is the invariant of the state bag.
--              Runner/Completes is the runner without an interruption, for Run/Concludes and, where no
--              call is refused, Run/Succeeds.
--   Tests      the theorems at concrete inputs, over a platform that is written out.
--
-- Bounds. The wait for the API has the source's 50 rounds and recurses on them. The poll of the
-- shutdown loops until a deadline in the source; it takes fuel here, of which the step gives 16: its
-- deadline is 30 seconds ahead and each round sleeps for 2, and the clock does not run backwards.
-- Times are in milliseconds.
--
-- Not modelled. The JSON text (json.Marshal of a tree and json.Unmarshal of a list of texts), the
-- lower case of text that is not ASCII, the text of IPv6 addresses, config.Decode and the preparation
-- of the communicator are parameters. A file is its path's text, so links and other spellings of a
-- path are not seen; what is no directory is a file with the bytes that are read from it, so devices
-- and pipes, which the source does not tell from regular files, are not told apart here either. That
-- a cancelled context kills the monitor (exec.CommandContext) happens in the platform's own state. The thread that logs the monitor's stderr is left out, and so are main.go
-- and version/version.go, which hand the builder and two constants to the SDK, and the runner's modes
-- for a failed build that asks or stops without a cleanup.
pub mod Prelude
pub mod Go
pub mod Json
pub mod Runtime
pub mod Chclient
pub mod Config
pub mod Ssh
pub mod Artifact
pub mod Steps
pub mod Builder
mod Tests
