-- ===== src/Runtime/Effects.antt =====
-- The state that a build changes, and the effects as a state monad. The log is newest first.
use Prim.Native.String.{String}
use packer_plugin_cloud_hype.Prelude.{ℕ, Option, List, ◌∷◌, Str}
use packer_plugin_cloud_hype.Runtime.Errors.{Error}
use packer_plugin_cloud_hype.Runtime.Values.{Value}
use packer_plugin_cloud_hype.Runtime.Host.{Platform, Request, Exchange, Syscall}

-- What a path names: a directory, or anything else, by the bytes that are read from it. Devices and
-- pipes are not told apart from regular files, as the source does not tell them apart.
pub data Node : Type 0 where
  file : List ℕ → Node
  dir : Node

-- What the build does to the world outside, in the order in which it does it.
pub data Event : Type 0 where
  say debug : String → Event
  said_count : ℕ → Event
  ui_error : Error → Event
  request : Request → Event
  slept : ℕ → Event
  spawned : Str → List Str → Event
  terminated killed waited : ℕ → Event
  removed : Str → Event
  other : ℕ → Event

pub data StepAction : Type 0 where
  continue halt : StepAction

module _ ⦃P : Platform⦄ where
  pub record Machine : Type 0 where
    pub bag : P.Bag
    pub log : List Event
    pub files : Str → Option Node
    pub host : P.State

  abbrev pub M : Type 0 → Type 0
  M A = Machine → A × Machine

  abbrev pub pure : {A : Type 0} → A → M A
  pure a w = (a, w)

  infixl 5 ◌>>=◌ ◌>>◌
  abbrev pub ◌>>=◌ : {A B : Type 0} → M A → (A → M B) → M B
  ◌>>=◌ m f w = let (a, w') = m w in f a w'

  abbrev pub ◌>>◌ : {A B : Type 0} → M A → M B → M B
  ◌>>◌ m k w = let (a, w') = m w in k w'

  abbrev pub emit : Event → M (Unit {0})
  emit e w = (tt, record w { log = e ∷ w.log })

  -- `state.GetOk` and `state.Put`
  abbrev pub get : String → M (Option Value)
  get k w = (P.get_ok k w.bag, w)

  abbrev pub put : String → Value → M (Unit {0})
  put k v w = (tt, record w { bag = P.put k v w.bag })

  abbrev pub ask : {A : Type 0} → (P.State → A × P.State) → M A
  ask f w = let (a, s) = f w.host in (a, record w { host = s })

  abbrev pub fault : Syscall → M (Option Error)
  fault c = ask (P.fault c)

  abbrev pub exchange : Request → M Exchange
  exchange r = emit (request r) >> ask (P.exchange r)

  abbrev pub sleep : ℕ → M (Unit {0})
  sleep d w = (tt, record w { log = slept d ∷ w.log; host = P.sleep d w.host })

  pub record Step : Type 0 where
    pub run : M StepAction
    pub cleanup : Machine → Machine
